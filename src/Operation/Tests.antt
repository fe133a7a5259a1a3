-- ===== src/Operation/Tests.antt =====
-- A journal of three files.
use enclave.Common.{◌≡◌, refl, true, false, [], ◌∷◌, none, some, codes, ok, get_or}
use enclave.Operation.{
  OperationRecord, new_record, begin_record, succeed_record, Files, entries, begin, close_each,
  close_unfinished_records, past_limit, failed, removed, prune_terminal_records,
}
use enclave.Operation.Closing.{closed_record, close_unfinished_records-closes}
use enclave.Operation.Pruning.{prune_terminal_records-keeps_open}

abbrev started : OperationRecord
started =
    begin_record (new_record (codes "a") (codes "1") (codes "start") (codes "web"))
      (codes "starting") (codes "2")

abbrev ended : OperationRecord
ended = succeed_record (new_record (codes "b") (codes "1") (codes "stop") (codes "db")) (codes "3")

abbrev files : Files
files = (codes "a", some started) ∷ (codes "b", some ended) ∷ (codes "c", none) ∷ []

close_unfinished_records-closes_example :
    get_or none
      (close_unfinished_records
        (λ id. true)
        (λ id. codes "4")
        (codes "gone")
        files
        (entries files)).0
      (codes "a")
    ≡ closed_record (λ id. codes "4") (codes "gone") (get_or none files (codes "a"))
close_unfinished_records-closes_example =
    close_unfinished_records-closes (λ id. true) (λ id. codes "4") (codes "gone") files (codes "a")
      (λ id. refl) ((refl, (refl, tt)), ((refl, tt), (tt, tt))) (refl, (refl, (tt, tt)))

close_returns_ids :
    (close_unfinished_records (λ id. true) (λ id. codes "4") (codes "gone") files (entries files)).1
    ≡ ok (codes "a" ∷ [])
unfolding close_unfinished_records close_each
close_returns_ids = refl

abbrev ended_later : OperationRecord
ended_later =
    record (succeed_record (new_record (codes "d") (codes "0") (codes "stop") (codes "db"))
      (codes "5")) { status = failed }

abbrev journal : Files
journal = (codes "d", some ended_later) ∷ files

past_limit_keeps_newest :
    past_limit 1 ((codes "1", codes "a") ∷ (codes "3", codes "b") ∷ (codes "2", codes "c") ∷ [])
    ≡ (codes "2", codes "c") ∷ (codes "1", codes "a") ∷ []
unfolding past_limit
past_limit_keeps_newest = refl

prune_terminal_records-keeps_open_example :
    get_or none (prune_terminal_records (λ path. removed) files (entries files)).0 (codes "a")
    ≡ some started
prune_terminal_records-keeps_open_example =
    prune_terminal_records-keeps_open (λ path. removed) files (codes "a") started
      ((refl, (refl, tt)), ((refl, tt), (tt, tt))) refl refl

begin_then_fail :
    (begin
      (λ id. false)
      true
      (some (codes "op"))
      (codes "x")
      (codes "1")
      (codes "start")
      (codes "web")
      []).0
    ≡ []
unfolding begin
begin_then_fail = refl
