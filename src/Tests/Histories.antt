-- ===== src/Tests/Histories.antt =====
-- A history of the primary database: a pre-interest, its acknowledgement, then a failure.
use hhm_api_server_rs.Common.{All, codes, arith}
use hhm_api_server_rs.Persistence.Kinds
use hhm_api_server_rs.Persistence.Kinds.{primary}
use hhm_api_server_rs.Persistence.Session.{Session}
use hhm_api_server_rs.Persistence.Submit.{store_pre_interest}
use hhm_api_server_rs.Persistence.Outbox.{mark_mirrored, record_mirror_failure}
use hhm_api_server_rs.Persistence.Outbox.Schedule.{IsSound}
use hhm_api_server_rs.Persistence.Invariant.Keys.{KeysDistinct}
use hhm_api_server_rs.Persistence.Invariant.Entries.{OutboxCovers}
use hhm_api_server_rs.Persistence.Invariant.Steps.{
  Reach, here, next, pre_interest, acknowledgement, failure,
}
use hhm_api_server_rs.Persistence.Invariant.Histories.{
  Reach-KeysDistinct, Reach-OutboxCovers, Reach-IsSound,
}
use hhm_api_server_rs.Tests.Data.{empty, context, healthy, accepting, digest_text}
use hhm_api_server_rs.Tests.Data

abbrev one : Session
one = (store_pre_interest accepting healthy primary context Data.pre_interest empty).1

abbrev two : Session
two = (mark_mirrored healthy Kinds.pre_interest 7 digest_text one).1

abbrev three : Session
three = (record_mirror_failure healthy Kinds.pre_interest 7 (codes "down") two).1

abbrev history : Reach accepting healthy primary empty three
history =
    next
      (next (next here (pre_interest context Data.pre_interest empty))
        (acknowledgement Kinds.pre_interest 7 digest_text one))
      (failure Kinds.pre_interest 7 (codes "down") two)

empty-KeysDistinct : KeysDistinct empty.db
empty-KeysDistinct = record {
  of_pre_interests = tt;
  of_uploads = tt;
  of_applications = tt;
  of_referrals = tt;
}

empty-OutboxCovers : OutboxCovers empty.db
empty-OutboxCovers = record {
  of_pre_interests = tt;
  of_uploads = tt;
  of_applications = tt;
  of_referrals = tt;
}

Reach-KeysDistinct_example : KeysDistinct three.db
Reach-KeysDistinct_example =
    Reach-KeysDistinct accepting healthy primary empty three history empty-KeysDistinct

Reach-OutboxCovers_example : OutboxCovers three.db
Reach-OutboxCovers_example =
    Reach-OutboxCovers accepting healthy empty three history empty-OutboxCovers

Reach-IsSound_example : All IsSound three.db.outbox
Reach-IsSound_example = Reach-IsSound accepting healthy primary (omega arith) empty three history tt
