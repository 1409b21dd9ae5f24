-- ===== src/Contemplant/Residency.antt =====
-- Which backends were set to work and not told to release the GPU since.
use hierophant.Prelude.{
  ◌≡◌, refl, ap, sym, ◌∙◌, subst, Bool, true, false, ◌||◌, ◌&&◌, not, Option, none, some, List, [],
  ◌∷◌, ◌++◌, if◌then◌else◌, Bool-cases, inl, inr, arith, or_else,
}
use hierophant.Network.{
  Bytes, VmKind, sp1, risc0, open_vm, same_vm, ContemplantProofRequest, vm, request_id,
  FromHierophantMessage, proof_request, proof_status_request,
}
use hierophant.Contemplant.{
  WorkerState, Effect, released, executed, exits, responds, has_executor, evict, execute_proof,
  Message, close, binary, other, Surroundings, on_message, handle_message_from_hierophant, receive,
}

-- Whether a backend counts as hot after an effect: from the time that it is set to work on a request
-- until `release_gpu` is called on it. What it gives back then is its own affair.
abbrev pub hot_then : VmKind → Bool → Effect → Bool
hot_then v held (released u) = held && not (same_vm u v)
hot_then v held (executed q) = held || same_vm (vm q) v
hot_then v held (exits r) = held
hot_then v held (responds r s) = held

abbrev pub is_hot_after : VmKind → Bool → List Effect → Bool
is_hot_after v held [] = held
is_hot_after v held (e ∷ es) = is_hot_after v (hot_then v held e) es

same_vm_refl : (v : VmKind) → same_vm v v ≡ true
same_vm_refl sp1 = refl
same_vm_refl risc0 = refl
same_vm_refl open_vm = refl

same_vm_sound : (u v : VmKind) → same_vm u v ≡ true → u ≡ v
same_vm_sound sp1 sp1 h = refl
same_vm_sound sp1 risc0 h = absurd cc
same_vm_sound sp1 open_vm h = absurd cc
same_vm_sound risc0 sp1 h = absurd cc
same_vm_sound risc0 risc0 h = refl
same_vm_sound risc0 open_vm h = absurd cc
same_vm_sound open_vm sp1 h = absurd cc
same_vm_sound open_vm risc0 h = absurd cc
same_vm_sound open_vm open_vm h = refl

is_hot_after-append :
    (v : VmKind) (held : Bool) (es fs : List Effect)
    → is_hot_after v held (es ++ fs) ≡ is_hot_after v (is_hot_after v held es) fs
is_hot_after-append v held [] fs = refl
is_hot_after-append v held (e ∷ es) fs = is_hot_after-append v (hot_then v held e) es fs

-- A backend that is hot is the resident one, and has an executor.
pub record IsResident (v : VmKind) (held : Bool) (s : WorkerState) : Type 0 where
  pub resident : held ≡ true → s.resident_vm ≡ some v
  pub served : held ≡ true → has_executor s v ≡ true

-- A test that is not passed leaves the backend that it is about.
unheld : (v u w : VmKind) (s : WorkerState) → is_hot_after v false (evict s u (some w)) ≡ false
unfolding evict
unheld v u w s = elim (Bool-cases (same_vm w u)) [
  | inl t ↦ rw t
  | inr t ↦ elim (Bool-cases (has_executor s w)) [ inl y ↦ rw (t, y) | inr y ↦ rw (t, y) ]
]

evicted :
    (v u : VmKind) (s : WorkerState)
    → has_executor s v ≡ true
    → is_hot_after v true (evict s u (some v)) ≡ true
    → u ≡ v
unfolding evict
evicted v u s g e = elim (Bool-cases (same_vm v u)) [
  | inl t ↦ sym (same_vm_sound v u t)
  | inr t ↦ absurd (let f = rw (t, g, same_vm_refl v) at e in cc)
]

evict_lem :
    (v u : VmKind) (held : Bool) (s : WorkerState) (r : Option VmKind)
    → (held ≡ true → r ≡ some v)
    → (held ≡ true → has_executor s v ≡ true)
    → is_hot_after v held (evict s u r) ≡ true
    → (u ≡ v) × (held ≡ true)
unfolding evict
evict_lem v u held s none h g e = absurd (let f = h e in cc)
evict_lem v u false s (some w) h g e = absurd (let f = unheld v u w s in cc)
evict_lem v u true s (some w) h g e =
    let f : w ≡ v = ap (or_else w) (h refl) in
    (
      evicted v u s (g refl) (subst (λ x. is_hot_after v true (evict s u (some x)) ≡ true) f e),
      refl,
    )

executor_of :
    (s : WorkerState) (r : Option VmKind) (v : VmKind)
    → has_executor (record s { resident_vm = r }) v ≡ has_executor s v
unfolding has_executor
executor_of s r sp1 = refl
executor_of s r risc0 = refl
executor_of s r open_vm = refl

-- What is held after the last effect of a request was held before it, or is what the request wants.
routed-IsResident :
    (v : VmKind) (held : Bool) (s : WorkerState) (q : ContemplantProofRequest)
    → (held ≡ true → (vm q ≡ v) × (has_executor s v ≡ true))
    → (b : Bool) → has_executor s (vm q) ≡ b
    → IsResident v
        (is_hot_after v held ((if b then executed q else exits (request_id q)) ∷ []))
        (record s { resident_vm = some (vm q) })
routed-IsResident v held s q h false e = record {
  resident = λ x. ap some (h x).0;
  served = λ x. executor_of s _ v ∙ (h x).1;
}
routed-IsResident v held s q h true e = elim (Bool-cases (same_vm (vm q) v)) [
  | inl t ↦ record {
    resident = λ x. ap some (same_vm_sound (vm q) v t);
    served =
        λ x. executor_of s _ v ∙ subst (λ u. has_executor s u ≡ true) (same_vm_sound (vm q) v t) e;
  }
  | inr t ↦ record {
    resident = λ x. ap some (h (ground (arith, x, t))).0;
    served = λ x. executor_of s _ v ∙ (h (ground (arith, x, t))).1;
  }
]

execute_proof-IsResident :
    (v : VmKind) (held : Bool) (s : WorkerState) (q : ContemplantProofRequest)
    → IsResident v held s
    → IsResident v (is_hot_after v held (execute_proof s q).1) (execute_proof s q).0
unfolding execute_proof
execute_proof-IsResident v held s q h =
    rw
      (is_hot_after-append v held (evict s (vm q) s.resident_vm)
        ((if has_executor s (vm q) then executed q else exits (request_id q)) ∷ []))
      (routed-IsResident v (is_hot_after v held (evict s (vm q) s.resident_vm)) s q
        (λ x.
          let k = evict_lem v (vm q) held s s.resident_vm h.resident h.served x in
          (k.0, h.served k.1))
        (has_executor s (vm q)) refl)

on_message-IsResident :
    (v : VmKind) (held : Bool) (m : Surroundings) (s : WorkerState)
    (o : Option FromHierophantMessage)
    → IsResident v held s
    → IsResident v (is_hot_after v held (on_message m s o).1) (on_message m s o).0
on_message-IsResident v held m s none h = h
on_message-IsResident v held m s (some (proof_request q)) h = execute_proof-IsResident v held s q h
on_message-IsResident v held m s (some (proof_status_request r)) h = elim (Bool-cases m.sends) [
  | inl t ↦ rw t h
  | inr t ↦ rw t h
]

module _ (deserialize : Bytes → Option FromHierophantMessage) where
  receive-IsResident :
      (v : VmKind) (held : Bool) (ms : List (Surroundings × Message)) (s : WorkerState)
      → IsResident v held s
      → IsResident v (is_hot_after v held (receive deserialize ms s).1) (receive deserialize ms s).0
  unfolding receive handle_message_from_hierophant
  receive-IsResident v held [] s h = h
  receive-IsResident v held ((m, close) ∷ ms) s h = receive-IsResident v held ms s h
  receive-IsResident v held ((m, other) ∷ ms) s h = receive-IsResident v held ms s h
  receive-IsResident v held ((m, binary b) ∷ ms) s h =
      let r = on_message m s (deserialize b) in
      rw (is_hot_after-append v held r.1 (receive deserialize ms r.0).1) (
        receive-IsResident v (is_hot_after v held r.1) ms r.0
          (on_message-IsResident v held m s (deserialize b) h))

  -- After any messages, from a start at which nothing is resident, a backend that was set to work and
  -- on which `release_gpu` was not called since is the one that the switch remembers: the switch
  -- never leaves two of them so, and forgets none.
  pub receive_lem :
      (v : VmKind) (ms : List (Surroundings × Message)) (s : WorkerState)
      → s.resident_vm ≡ none
      → is_hot_after v false (receive deserialize ms s).1 ≡ true
      → (receive deserialize ms s).0.resident_vm ≡ some v
  receive_lem v ms s e h =
      (receive-IsResident v false ms s
          (record { resident = λ x. absurd cc; served = λ x. absurd cc })).resident
        h
