-- ===== src/Artifact.antt =====
-- The artifact store of the Hierophant: names of artifacts (Uri) and the store on disk (Store).
pub mod Uri
pub mod RoundTrip
pub mod Store
