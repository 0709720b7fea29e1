-- ===== src/Persistence/Invariant.antt =====
-- Predicates on the tables of src/persistence.rs: the keys of a table, and the outbox entries that
-- stand for its rows.
pub mod Keys
pub mod Entries
pub mod Steps
pub mod Histories
pub mod Held
use hhm_api_server_rs.Common.{
  ℕ, ◌≡◌, refl, sym, ap, ap₂, ◌∙◌, Bool, true, false, ◌||◌, Option, none, some, List, [], ◌∷◌, map,
  String, Text, Text-Eq, ℕ-Eq, arith, any, find, All, modify_where, ◌==◌, if◌then◌else◌,
  text_eq_iff, Bool-cases, inl, inr,
}
use hhm_api_server_rs.Persistence.Kinds.{StoredSubmissionKind}
use hhm_api_server_rs.Persistence.Context.{Uuid}
use hhm_api_server_rs.Persistence.Rows.{Row, UploadRow, OutboxRow, Db}
use hhm_api_server_rs.Persistence.Submit.{find_key}
use hhm_api_server_rs.Persistence.Outbox.{
  same_submission, set_status, is_settled_entry, mirrored_entry, failed_entry,
}

abbrev pub keys : {P : Type 0} → List (Row P) → List Text
keys [] = []
keys (r ∷ rs) = r.idempotency_key ∷ keys rs

abbrev pub upload_keys : List UploadRow → List Text
upload_keys [] = []
upload_keys (r ∷ rs) = r.idempotency_key ∷ upload_keys rs

-- What the outbox repeats of a row.
abbrev pub pairs : {P : Type 0} → List (Row P) → List (Uuid × Text)
pairs [] = []
pairs (r ∷ rs) = (r.id, r.payload_sha256) ∷ pairs rs

abbrev pub upload_pairs : List UploadRow → List (Uuid × Text)
upload_pairs [] = []
upload_pairs (r ∷ rs) = (r.id, r.payload_sha256) ∷ upload_pairs rs

abbrev pub Distinct : List Text → Type 0
Distinct [] = Unit
Distinct (k ∷ ks) = (any (λ j. j == k) ks ≡ false) × Distinct ks

abbrev pub HasEntry : StoredSubmissionKind → List OutboxRow → Uuid × Text → Type 0
HasEntry kind outbox p = any (is_settled_entry kind p.0 p.1) outbox ≡ true

abbrev pub Covered : StoredSubmissionKind → List (Uuid × Text) → List OutboxRow → Type 0
Covered kind ps outbox = All (HasEntry kind outbox) ps

module _ {P : Type 0} where
  pub keys_of_missing :
      (key : Text) (rows : List (Row P))
      → find_key key rows ≡ none
      → any (λ j. j == key) (keys rows) ≡ false
  keys_of_missing key [] h = refl
  keys_of_missing key (r ∷ rs) h = ground (arith, keys_of_missing key rs)

  module _ (test : Row P → Bool) (status : String) where
    pub keys-set_status :
        (rows : List (Row P)) → keys (modify_where test (set_status status) rows) ≡ keys rows
    keys-set_status [] = refl
    keys-set_status (r ∷ rs) = ground (arith, keys-set_status rs)

    pub pairs-set_status :
        (rows : List (Row P)) → pairs (modify_where test (set_status status) rows) ≡ pairs rows
    pairs-set_status [] = refl
    pairs-set_status (r ∷ rs) = ground (arith, pairs-set_status rs)

module _ (kind : StoredSubmissionKind) where
  pub Covered-cons :
      (e : OutboxRow) (outbox : List OutboxRow) (ps : List (Uuid × Text))
      → Covered kind ps outbox
      → Covered kind ps (e ∷ outbox)
  Covered-cons e outbox [] h = tt
  Covered-cons e outbox (p ∷ ps) (h, hs) = (ground (arith, h), Covered-cons e outbox ps hs)

  -- A change that keeps the kind, the identifier and the payload keeps every entry.
  module _ (test : OutboxRow → Bool) (change : OutboxRow → OutboxRow)
      (keeps : (id : Uuid) (payload : Text) (e : OutboxRow)
        → is_settled_entry kind id payload (change e) ≡ is_settled_entry kind id payload e) where
    any-change :
        (id : Uuid) (payload : Text) (outbox : List OutboxRow)
        → any (is_settled_entry kind id payload) (modify_where test change outbox)
          ≡ any (is_settled_entry kind id payload) outbox
    any-change id payload [] = refl
    any-change id payload (e ∷ es) = elim (Bool-cases (test e)) [
      | inl yes' ↦ rw (yes', keeps id payload e, any-change id payload es)
      | inr no' ↦ rw (no', any-change id payload es)
    ]

    pub Covered-change :
        (outbox : List OutboxRow) (ps : List (Uuid × Text))
        → Covered kind ps outbox
        → Covered kind ps (modify_where test change outbox)
    Covered-change outbox [] h = tt
    Covered-change outbox (p ∷ ps) (h, hs) =
        (any-change p.0 p.1 outbox ∙ h, Covered-change outbox ps hs)
