-- ===== src/Covenant/Tests.antt =====
-- Runs of the covenant on concrete inputs, and each theorem at an input.
use cloudy.Prelude.{ℕ, Bool, ◌==◌, ◌≡◌, refl, [], Option, some, none, replicate, if◌then◌else◌}
use cloudy.Prelude.Int.{negsuc}
use cloudy.Prelude.Dict.{get, insert, lookup, has}
use cloudy.Prelude.Table.{find, write, get_or}
use cloudy.Prelude.Bytes.{Bytes, ascii, bytes_eq, has_key, be_bytes, bytes-Key}
use cloudy.Prelude.Result.{ok, err}
use cloudy.Primitives.{Hash}
use cloudy.Primitives.Toy.{toy, value_or}
use cloudy.Covenant.Assessment.{
  duplicate, MemberId, Assessment, Answer, hex_digit, hex_encode, all_hex, valid_member_id,
  valid_level, is_no_trust, relation_trade, relation_adjudication_conduct,
  relation_verdict_satisfaction, valid_relation, member_id_for, assessment_bytes, assessment_id,
  sign_assessment, verify_assessment, answer_bytes, sign_answer, verify_answer,
}
use cloudy.Covenant.Store.{
  MemStore, new_mem_store, append, append_answer, verdict_key, verdicts_on, verdict_of, answer_for,
}
use cloudy.Covenant.Standing.{
  level_eq, level-Key, Standing, count_of, relation_of, category_of, count_level, count_in_relation,
  count_verdict, tally, harm,
}
use cloudy.Covenant.Standing.Tally.{Tallies}
use cloudy.Covenant.Book.{
  Book, lbtas_default_categories, category_set, new_book, record_assessment, record_answer,
  standing,
}
use cloudy.Covenant.Book.Admission.{Accepted, Replies}
use cloudy.Covenant.Book.Admission.Record.{
  Each, Step, assessed, answered, History, created, went, Accepted-History, standing-History,
  record_answer_once,
}

-- Everything that a run calls.
run : ℕ
unfolding toy be_bytes ascii bytes_eq has_key get insert lookup has find write get_or bytes-Key
    hex_digit hex_encode all_hex valid_member_id valid_level is_no_trust relation_trade
    relation_adjudication_conduct relation_verdict_satisfaction valid_relation member_id_for
    assessment_bytes assessment_id sign_assessment verify_assessment answer_bytes sign_answer
    verify_answer append append_answer verdict_key verdicts_on verdict_of answer_for level_eq
    level-Key count_of relation_of category_of count_level count_in_relation count_verdict tally
    harm lbtas_default_categories category_set new_book record_assessment record_answer standing
run = 0

abbrev alice : MemberId
alice = member_id_for toy "cloudy" (replicate 32 1)

abbrev bob : MemberId
bob = member_id_for toy "cloudy" (replicate 32 2)

abbrev directory : MemberId → Option Bytes
directory m =
    if bytes_eq m alice
    then some (replicate 32 1)
    else if bytes_eq m bob
    then some (replicate 32 2)
    else none

-- The anchors hold one exchange, and no claim on it.
abbrev sealed : Hash → MemberId → MemberId → Bool
sealed exchange assessor subject = exchange == 5

abbrev adjudicated : Hash → MemberId → MemberId → Bool
adjudicated exchange assessor subject = exchange == 6

abbrev book : Book
book = value_or (record { platform = ""; categories = [] }) (new_book "cloudy" [])

abbrev verdict : Assessment
verdict = sign_assessment toy (replicate 64 1) (record {
  assessor = alice;
  subject = bob;
  exchange = 5;
  relation = relation_trade;
  category = ascii "support";
  level = negsuc 0;
  comment_hash = 3;
  issued_at = 9;
  signature = [];
})

abbrev reply : Answer
reply = sign_answer toy (replicate 64 2) (record {
  assessment = assessment_id toy verdict;
  answerer = bob;
  answer_hash = 4;
  issued_at = 10;
  signature = [];
})

abbrev store_1 : MemStore
store_1 =
    value_or new_mem_store
      (record_assessment toy directory sealed adjudicated book new_mem_store verdict)

abbrev store_2 : MemStore
store_2 = value_or store_1 (record_answer toy directory sealed adjudicated book store_1 reply)

first_call : Step toy directory book sealed adjudicated new_mem_store store_1
unfolding run
first_call = assessed verdict refl

second_call : Step toy directory book sealed adjudicated store_1 store_2
unfolding run
second_call = answered reply refl

history_1 : History toy directory book sealed adjudicated store_1
history_1 = went new_mem_store store_1 created first_call

history_2 : History toy directory book sealed adjudicated store_2
history_2 = went store_1 store_2 history_1 second_call

-- The same verdict is not admitted twice, and the worst level counts as harm.
repeated : record_assessment toy directory sealed adjudicated book store_2 verdict ≡ err duplicate
unfolding run
repeated = refl

harmed :
    harm
      (relation_of (value_or (record { per_relation = [] }) (standing store_2 bob)) relation_trade)
    ≡ 1
unfolding run
harmed = refl

Accepted-History_example :
    Each (Accepted toy directory book sealed adjudicated) bob (verdicts_on store_2 bob)
Accepted-History_example =
    Accepted-History toy directory book sealed adjudicated store_2 bob history_2

standing-History_example :
    (st : Standing) × ((standing store_2 bob ≡ ok st) × Tallies st (verdicts_on store_2 bob))
unfolding run
standing-History_example =
    standing-History toy directory book sealed adjudicated store_2 bob history_2 refl

record_answer_once_example :
    ((a : Assessment) × Replies toy directory book sealed adjudicated store_1 reply a)
    × ((answer_for store_1 reply.assessment ≡ none)
        × (answer_for store_2 reply.assessment ≡ some reply))
unfolding run
record_answer_once_example =
    record_answer_once toy directory book sealed adjudicated store_1 store_2 reply refl
