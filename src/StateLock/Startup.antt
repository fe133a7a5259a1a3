-- ===== src/StateLock/Startup.antt =====
-- A daemon that nobody contends with is given the state lock: src/daemon/state_lock.rs.
use enclave.StateLock.{
  Entry, regular, other, Phase, idle, attempting, opening, opened, locked, writing, held, Host, put,
  move, call, start, stat_path, open_file, take_lock, confirm, write_record, give_up,
  acquire_attempts, Event, starts, calls, step, history,
}
use enclave.Common.{
  ℕ, Option, none, some, List, [], ◌∷◌, if◌then◌else◌, ◌≡◌, refl, ap, ◌∙◌, ◌≢◌, ==_iff,
}

-- The file that an open of the path gives.
abbrev pub file_at : Option Entry → ℕ → ℕ
file_at (some (regular i)) next_file = i
file_at _ next_file = next_file

abbrev pub start_up : ℕ → List Event
start_up d = starts d ∷ calls d ∷ calls d ∷ calls d ∷ calls d ∷ calls d ∷ []

module _ (s : Host) (d : ℕ) where
  history-calls :
      (p : Phase) (t : Host) (es : List Event)
      → s.phase d ≡ p
      → call s d p ≡ t
      → history s (calls d ∷ es) ≡ history t es
  unfolding history step
  history-calls p t es q e = ap (λ x. history x es) (ap (call s d) q ∙ e)

  history-starts :
      (es : List Event)
      → s.phase d ≡ idle
      → history s (starts d ∷ es) ≡ history (move s d (attempting acquire_attempts)) es
  unfolding history step start
  history-starts es q = ap (λ x. history x es) (ap (start s d) q)

put-same {ℓ} : {A : Type ℓ} (f : ℕ → A) (k : ℕ) (v : A) → put f k v k ≡ v
put-same f k v = ap (λ b. if b then v else f k) ((==_iff k k).1 refl)

-- The calls that follow the open, with no owner.
opened-held :
    (s : Host) (d i n : ℕ)
    → s.phase d ≡ opened i n
    → s.path ≡ some (regular i)
    → s.owner i ≡ none
    → (history s (calls d ∷ calls d ∷ calls d ∷ [])).phase d ≡ held i
unfolding history call
opened-held s d i n q e free =
    let s1 = take_lock s d i n none in
    let s2 = move s1 d (writing i) in
    let same = (==_iff i i).1 refl in
    let first =
      history-calls s d (opened i n) s1 (calls d ∷ calls d ∷ []) q (ap (take_lock s d i n) free) in
    let second =
      history-calls s1 d (locked i n) s2 (calls d ∷ []) (put-same s.phase d (locked i n)) (
        ap (confirm s1 d i n) e ∙ ap (λ b. if b then s2 else give_up s1 d i (attempting n)) same) in
    let third =
      history-calls s2 d (writing i) (write_record s2 d i) [] (put-same s1.phase d (writing i))
        refl in
    ap (λ h. h.phase d) (first ∙ second ∙ third) ∙ put-same s2.phase d (held i)

opening-held :
    (s : Host) (d n : ℕ) (entry : Option Entry)
    → s.phase d ≡ opening n
    → s.path ≡ entry
    → entry ≢ some other
    → s.owner (file_at entry s.next_file) ≡ none
    → (history s (calls d ∷ calls d ∷ calls d ∷ calls d ∷ [])).phase d
      ≡ held (file_at entry s.next_file)
unfolding call
opening-held s d n (some other) q e regular_path free = absurd (regular_path refl)
opening-held s d n (some (regular i)) q e regular_path free =
    ap (λ h. h.phase d)
      (history-calls s d (opening n) (move s d (opened i n)) (calls d ∷ calls d ∷ calls d ∷ []) q
        (ap (open_file s d n) e))
    ∙ opened-held (move s d (opened i n)) d i n (put-same s.phase d (opened i n)) e free
opening-held s d n none q e regular_path free =
    let t = open_file s d n none in
    ap (λ h. h.phase d)
      (history-calls s d (opening n) t (calls d ∷ calls d ∷ calls d ∷ []) q
        (ap (open_file s d n) e))
    ∙ opened-held t d s.next_file n (put-same s.phase d (opened s.next_file n)) refl free

stat_path-opens :
    (s : Host) (d n : ℕ) (entry : Option Entry)
    → entry ≢ some other
    → stat_path s d n entry ≡ move s d (opening n)
stat_path-opens s d n none h = refl
stat_path-opens s d n (some (regular i)) h = refl
stat_path-opens s d n (some other) h = absurd (h refl)

-- The calls up to the open.
idle-opening :
    (s : Host) (d : ℕ) (es : List Event)
    → s.phase d ≡ idle
    → s.path ≢ some other
    → history s (starts d ∷ calls d ∷ es)
      ≡ history (move (move s d (attempting 4)) d (opening 3)) es
unfolding call
idle-opening s d es q regular_path =
    history-starts s d (calls d ∷ es) q
    ∙ history-calls (move s d (attempting 4)) d (attempting 4)
        (move (move s d (attempting 4)) d (opening 3)) es (put-same s.phase d (attempting 4))
        (stat_path-opens (move s d (attempting 4)) d 3 s.path regular_path)

-- A daemon that does not run, on a host where nobody holds the lock of the file that the path
-- names or that an open would make, and where the path names no other thing than a file, holds
-- the lock on this file after the call and five system calls, in its first attempt.
pub start_up-held :
    (s : Host) (d : ℕ)
    → s.phase d ≡ idle
    → s.path ≢ some other
    → s.owner (file_at s.path s.next_file) ≡ none
    → (history s (start_up d)).phase d ≡ held (file_at s.path s.next_file)
unfolding call
start_up-held s d q regular_path free =
    ap (λ h. h.phase d)
      (idle-opening s d (calls d ∷ calls d ∷ calls d ∷ calls d ∷ []) q regular_path)
    ∙ opening-held (move (move s d (attempting 4)) d (opening 3)) d 3 s.path
        (put-same (move s d (attempting 4)).phase d (opening 3)) refl regular_path free
