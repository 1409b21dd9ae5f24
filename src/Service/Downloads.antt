-- ===== src/Service/Downloads.antt =====
-- `download_artifacts_and_route_proof`, the task that a request for a proof leaves behind where its
-- circuit artifacts are missing, in the steps between which a client can ask for the status.
use hierophant.Prelude.{
  ℕ, Bool, not, Option, none, some, List, [], ◌∷◌, ◌++◌, zero, suc, ◌==◌, nat_eq, if◌then◌else◌,
  keep,
}
use hierophant.Prelude.Texts.{Text}
use hierophant.Network.{Bytes}
use hierophant.Registry.Commands.{WorkerRegistryCommand}
use hierophant.Service.{ServiceState}
use hierophant.Service.Requests.{Scene, Download, needs_artifacts, route}

-- Where the task stands.
pub data Phase : Type 0 where
  installing marking routing removing ended : Phase

-- Whether the installation and the marker file succeed.
pub record Installer : Type 0 where
  pub installs : Bool
  pub writes : Bool

pub record Task : Type 0 where
  pub state : ServiceState
  pub phase : Phase
  pub commands : List WorkerRegistryCommand

abbrev pub sends : Option WorkerRegistryCommand → List WorkerRegistryCommand
sends none = []
sends (some cmd) = cmd ∷ []

abbrev pub remove_pending : ℕ → List ℕ → List ℕ
remove_pending r = keep (λ j. not (j == r))

module _ (uuid_to_string : ℕ → Text) (parse_uuid : Text → Option ℕ)
    (decompress decode_stdin decode_elf : Bytes → Option Bytes) (w : Installer) (c : Scene)
    (d : Download) where
  abbrev pub next_phase : Bool → Phase → Phase
  next_phase ok p = if ok then p else removing

  -- A mode that needs no artifacts ends the task at once.
  unfoldable pub download_step : Task → Task
  download_step t = elim t.phase [
    | installing ↦ record t {
      phase = if needs_artifacts d.mode then next_phase w.installs marking else ended;
    }
    | marking ↦ record t { phase = next_phase w.writes routing }
    | routing ↦ record t {
      phase = removing;
      commands =
          t.commands
          ++ sends (
              route uuid_to_string parse_uuid decompress decode_stdin decode_elf c d
                t.state.artifacts);
    }
    | removing ↦ record t {
      phase = ended;
      state = record t.state {
        proofs_pending_artifacts = remove_pending d.request_id t.state.proofs_pending_artifacts;
      };
    }
    | ended ↦ t
  ]

  unfoldable pub download_steps : ℕ → Task → Task
  unfolding download_step
  download_steps zero t = t
  download_steps (suc n) t = download_steps n (download_step t)
