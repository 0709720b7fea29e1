-- ===== src/Persistence/Outbox/Schedule.antt =====
-- The retry schedule of an outbox entry: how `record_mirror_failure` changes it.
use hhm_api_server_rs.Common.{
  ℕ, ◌^◌, ◌≤◌, ◌<◌, ◌≡◌, ◌⊎◌, inl, inr, min, Text, arith, All, modify_where, List, [], ◌∷◌, Bool,
  true, leb, Bool-cases, refl,
}
use native.Mathlib.Nat.{pow-le-pow_right}
use hhm_api_server_rs.Persistence.Kinds.{StoredSubmissionKind}
use hhm_api_server_rs.Persistence.Context.{Uuid}
use hhm_api_server_rs.Persistence.Rows.{OutboxRow}
use hhm_api_server_rs.Persistence.Outbox.{backoff, failed_entry, mirrored_entry, is_open_entry}

pow_bounds : (n : ℕ) → (1 ≤ 2 ^ min n 11) × (2 ^ min n 11 ≤ 2048)
pow_bounds n = (
  pow-le-pow_right {n = 2} (omega arith) {i = 0} (omega arith),
  pow-le-pow_right {n = 2} (omega arith) {j = 11} (omega arith),
)

-- The delay of a retry is a power of two seconds, from 1 to 2048: the cap of 3600 in the source
-- never applies.
pub backoff_bounds :
    (attempts : ℕ)
    → (backoff attempts ≡ 2 ^ min attempts 11) × (1 ≤ backoff attempts) × (backoff attempts ≤ 2048)
backoff_bounds attempts = omega (arith, pow_bounds attempts)

-- A later attempt does not wait less.
pub backoff_mono : (m n : ℕ) → m ≤ n → backoff m ≤ backoff n
backoff_mono m n h =
    let step : 2 ^ min m 11 ≤ 2 ^ min n 11 =
      pow-le-pow_right {n = 2} (omega arith) {i = min m 11} {j = min n 11} (omega arith) in
    omega (arith, pow_bounds m, pow_bounds n)

-- An entry is tried 100 times at most, and one that was tried as often is settled for good: it
-- failed terminally, or was mirrored since.
abbrev pub IsSound : OutboxRow → Type 0
IsSound e =
    (e.attempts ≤ 100)
    × ((e.attempts < 100) ⊎ (e.mirror_status ≡ "terminal_failure") ⊎ (e.mirror_status ≡ "mirrored"))

IsSound-failed :
    (kind : StoredSubmissionKind) (id : Uuid) (now : ℕ) (code : Text) (e : OutboxRow)
    → is_open_entry kind id e ≡ true
    → IsSound (failed_entry now code e)
IsSound-failed kind id now code e h = (
  ground arith,
  elim (Bool-cases (leb 99 e.attempts)) [
    | inl late ↦ rw late (inr (inl refl))
    | inr early ↦ inl (ground arith)
  ],
)

-- Recording a failure keeps every entry sound.
pub record_failure-IsSound :
    (kind : StoredSubmissionKind) (id : Uuid) (now : ℕ) (code : Text) (outbox : List OutboxRow)
    → All IsSound outbox
    → All IsSound (modify_where (is_open_entry kind id) (failed_entry now code) outbox)
record_failure-IsSound kind id now code [] h = tt
record_failure-IsSound kind id now code (e ∷ es) (h, hs) =
    let rest = record_failure-IsSound kind id now code es hs in
    elim (Bool-cases (is_open_entry kind id e)) [
      | inl chosen ↦ rw chosen (IsSound-failed kind id now code e chosen, rest)
      | inr other ↦ rw other (h, rest)
    ]

-- So does an acknowledgement.
pub mark_mirrored-IsSound :
    (test : OutboxRow → Bool) (outbox : List OutboxRow)
    → All IsSound outbox
    → All IsSound (modify_where test mirrored_entry outbox)
mark_mirrored-IsSound test [] h = tt
mark_mirrored-IsSound test (e ∷ es) ((few, settled), hs) =
    let rest = mark_mirrored-IsSound test es hs in
    elim (Bool-cases (test e)) [
      | inl chosen ↦ rw chosen ((few, inr (inr refl)), rest)
      | inr other ↦ rw other ((few, settled), rest)
    ]
