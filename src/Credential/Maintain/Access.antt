-- ===== src/Credential/Maintain/Access.antt =====
-- Whom a download serves and what a linking of competencies replaces,
-- feature/credential/credential_service.go.
use cred_chain_golang.Base.{
  map, All-map, Bool-cases, ◌≤◌, ◌≡◌, ◌⊎◌, inl, inr, String, List, [], ◌∷◌, All, some, arith, true,
  slice_to_map, eq_iff, ◌==◌,
}
use cred_chain_golang.Domain.Role.{Role, rank}
use cred_chain_golang.Domain.Fault.{Error, ok, err}
use cred_chain_golang.Domain.Reference.{Reference}
use cred_chain_golang.Domain.User.{User}
use cred_chain_golang.Domain.Credential.{Credential}
use cred_chain_golang.Effect.{Backend, World, transaction, check_all}
use cred_chain_golang.Effect.Laws.{check_all-ok, Result-cases}
use cred_chain_golang.Credential.Ports.{CredentialService}
use cred_chain_golang.Credential.Maintain.{
  Download, competency_guard, download_guard, download_file, link_body, link_competencies,
  competencies_guard, competency_links,
}

download_guard-ok :
    (auth : User) (c : Credential)
    → download_guard auth c ≡ ok tt
    → (c.holder_user_id ≡ auth.id) ⊎ (rank Role.issuer ≤ rank auth.role)
unfolding download_guard
download_guard-ok auth c h = elim (Bool-cases (c.holder_user_id == auth.id)) [
  | inl e ↦ inl (ground (arith, eq_iff c.holder_user_id auth.id))
  | inr e ↦ inr (ground arith)
]

competency_guard-ok :
    (found : List Reference) (id : String)
    → competency_guard found id ≡ ok tt
    → slice_to_map (λ r. r.id) (λ r. r.active) found id ≡ some true
unfolding competency_guard
competency_guard-ok found id h = ground arith

module _ {T : Backend} (s : CredentialService T) (w w' : World T) where
  download-run :
      (auth : User) (id : String) (d : Download)
      → download_file s auth id w ≡ (ok d, w')
      → (c : Credential) × (s.repo.find id ("holder" ∷ []) w.db ≡ ok c)
        × (download_guard auth c ≡ ok tt)
        × (w' ≡ w)
  unfolding download_file
  download-run auth id d h = ground arith

  download_name :
      (auth : User) (id : String) (d : Download) (c : Credential)
      → s.repo.find id ("holder" ∷ []) w.db ≡ ok c
      → download_file s auth id w ≡ (ok d, w')
      → c.file_uri ≡ some d.name
  unfolding download_file
  download_name auth id d c f h = ground arith

  download_bytes :
      (auth : User) (id : String) (d : Download) (c : Credential)
      → s.repo.find id ("holder" ∷ []) w.db ≡ ok c
      → c.file_uri ≡ some d.name
      → download_file s auth id w ≡ (ok d, w')
      → (text : String) × (s.storage.read_bytes (s.storage.join_path d.name) w.files ≡ ok text)
        × (s.storage.decrypt text ≡ ok d.bytes)
  unfolding download_file
  download_bytes auth id d c f g h =
      elim (Result-cases (s.storage.read_bytes (s.storage.join_path d.name) w.files)) [
        | inl (text, e) ↦ (text, e, ground arith)
        | inr (x, e) ↦ absurd (ground arith)
      ]

  -- A download that succeeds was asked for by the holder or by somebody of an issuer's rank or above,
  -- found the credential with a file, gives what the stored file decrypts to under the file's name, and
  -- changes nothing.
  pub download-ok :
      (auth : User) (id : String) (d : Download)
      → download_file s auth id w ≡ (ok d, w')
      → (w' ≡ w)
        × (c : Credential) × (s.repo.find id ("holder" ∷ []) w.db ≡ ok c)
        × ((c.holder_user_id ≡ auth.id) ⊎ (rank Role.issuer ≤ rank auth.role))
        × (c.file_uri ≡ some d.name)
        × (text : String) × (s.storage.read_bytes (s.storage.join_path d.name) w.files ≡ ok text)
        × (s.storage.decrypt text ≡ ok d.bytes)
  download-ok auth id d h =
      let (c, found, allowed, same) = download-run auth id d h in
      let file = download_name auth id d c found h in
      let (text, read, plain) = download_bytes auth id d c found file h in
      (same, c, found, download_guard-ok auth c allowed, file, text, read, plain)

  -- A linking that fails leaves the links as they were.
  pub link-err :
      (id : String) (ids : List String) (e : Error)
      → link_competencies s id ids w ≡ (err e, w')
      → w'.db ≡ w.db
  unfolding link_competencies transaction
  link-err id ids e h = ground arith

  link-run :
      (id c : String) (cs : List String)
      → link_competencies s id (c ∷ cs) w ≡ (ok tt, w')
      → (found : List Reference) × (s.find_competencies (c ∷ cs) w.db ≡ ok found)
        × (check_all (competency_guard found) (c ∷ cs) ≡ ok tt)
        × (s.store_links (competency_links s id (c ∷ cs)) (s.destroy_links id w.db).1
            ≡ (ok tt, w'.db))
  unfolding link_competencies transaction link_body competencies_guard
  link-run id c cs h = ground arith

  -- A linking that succeeds, of at least one competency, found each of them active, and replaced the
  -- links of the credential by one for each, from the competency to the credential, in the order of the
  -- request.
  pub link-ok :
      (id c : String) (cs : List String)
      → link_competencies s id (c ∷ cs) w ≡ (ok tt, w')
      → (found : List Reference) × (s.find_competencies (c ∷ cs) w.db ≡ ok found)
        × All (λ k. slice_to_map (λ r. r.id) (λ r. r.active) found k ≡ some true) (c ∷ cs)
        × (s.store_links
              (map (λ k. record { competency_id = k; credential_id = id }) (c ∷ cs))
              (s.destroy_links id w.db).1
            ≡ (ok tt, w'.db))
  link-ok id c cs h =
      let (found, known, checked, wrote) = link-run id c cs h in
      (
        found,
        known,
        All-map (competency_guard-ok found) (c ∷ cs)
            (check_all-ok (competency_guard found) (c ∷ cs) checked),
        wrote,
      )
