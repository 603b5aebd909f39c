-- ===== src/Os/Table.antt =====
-- A kernel to run the model on: one table of descriptors below 16, in which `dup3` is never busy.
-- The status flags of an open file are its number.
use arclaunch.Prelude.{
  ℕ, zero, suc, ◌+◌, ◌<◌, ◌&&◌, not, ◌≡◌, refl, ◌≢◌, Bool, true, false, Option, none, some, [],
  is_some, arith, ltb, ◌==◌, if◌then◌else◌,
}
use arclaunch.Os.{
  Os, Net, Posix, Reply, success, failed, Answers, InLimit, Piped, piped, pipe_failed, Pipes,
  parent,
}

pub record Table : Type 0 where
  pub entries : ℕ → Option ℕ
  pub next_pid : ℕ

abbrev pub table_limit : ℕ
table_limit = 16

abbrev pub table_file : Table → ℕ → Option ℕ
table_file t c = if ltb c table_limit then t.entries c else none

abbrev pub put_entry : Table → ℕ → Option ℕ → Table
put_entry t b o = record t { entries = λ c. if c == b then o else t.entries c }

abbrev copy_entry : Table → ℕ → Option ℕ → Reply Table
copy_entry t b none = failed t
copy_entry t b (some f) = if ltb b table_limit then success (put_entry t b (some f)) else failed t

abbrev table_dup3 : Table → ℕ → ℕ → Reply Table
table_dup3 t a b = if a == b then failed t else copy_entry t b (table_file t a)

abbrev table_flags : Option ℕ → ℕ
table_flags none = 0xffffffff
table_flags (some f) = f

-- The least closed descriptor from `c` on, of the next `n`.
abbrev first_closed : ℕ → ℕ → Table → Option ℕ
first_closed zero c t = none
first_closed (suc n) c t = elim (table_file t c) [
  | none ↦ some c
  | some f ↦ first_closed n (c + 1) t
]

abbrev o_rdwr : ℕ
o_rdwr = 2

abbrev both_closed : Table → ℕ → ℕ → Bool
both_closed t r w =
    ltb r w && ltb w table_limit && not (is_some (table_file t r)) && not (is_some (table_file t w))

-- A pipe is one file to both ends here.
abbrev open_both : Table → Option ℕ → Option ℕ → Piped Table
open_both t none w = pipe_failed t
open_both t (some r) none = pipe_failed t
open_both t (some r) (some w) =
    if both_closed t r w
    then piped r w (put_entry (put_entry t r (some o_rdwr)) w (some o_rdwr))
    else pipe_failed t

abbrev table_pipe2 : Table → Piped Table
table_pipe2 t = elim (first_closed table_limit 0 t) [
  | none ↦ pipe_failed t
  | some r ↦ open_both t (some r) (first_closed table_limit (r + 1) t)
]

-- There is no network here.
abbrev no_network : Net Table
no_network = record {
  socket = λ t a. (none, t);
  bind = λ t fd a. t;
  listen = λ t fd n. t;
  accept4 = λ t fd. (none, t);
  getaddrinfo = λ address service. none;
}

abbrev pub table_os : Os Table
table_os = record {
  is_open = λ t c. is_some (table_file t c);
  status_flags = λ t c. table_flags (table_file t c);
  dup3 = table_dup3;
  dup2 = λ t a b. copy_entry t b (table_file t a);
  close = λ t a. put_entry t a none;
  pipe2 = table_pipe2;
  fork = λ t. parent t.next_pid (record t { next_pid = suc t.next_pid });
  freed = λ n. n;
  net = no_network;
  selects = λ t p. [];
}

copy_entry-Answers_of :
    (t : Table) (a b : ℕ) (o : Option ℕ) (test : Bool)
    → table_file t a ≡ o
    → ltb b table_limit ≡ test
    → Answers table_file t a b (copy_entry t b o)
copy_entry-Answers_of t a b none test e h = λ c. refl
copy_entry-Answers_of t a b (some f) true e h =
    rw h record { source = λ n. cc; target = ground arith; others = λ c n. ground arith }
copy_entry-Answers_of t a b (some f) false e h = rw h λ c. refl

pub copy_entry-Answers :
    (t : Table) (a b : ℕ) → Answers table_file t a b (copy_entry t b (table_file t a))
copy_entry-Answers t a b = copy_entry-Answers_of t a b _ _ refl refl

pub copy_entry-InLimit :
    (t : Table) (b : ℕ) (o : Option ℕ) → InLimit table_limit b (copy_entry t b o)
copy_entry-InLimit t b none = tt
copy_entry-InLimit t b (some f) = ground arith

pub table_dup3-Answers : (t : Table) (a b : ℕ) → Answers table_file t a b (table_dup3 t a b)
table_dup3-Answers t a b = ground (arith, copy_entry-Answers t a b)

pub table_dup3-InLimit : (t : Table) (a b : ℕ) → InLimit table_limit b (table_dup3 t a b)
table_dup3-InLimit t a b = ground (arith, copy_entry-InLimit t b (table_file t a))

pub table-open-limit : (t : Table) (c : ℕ) → table_file t c ≢ none → c < table_limit
table-open-limit t c h = ground arith

pub table-flags_closed :
    (t : Table) (c : ℕ) → table_file t c ≡ none → table_flags (table_file t c) ≡ 0xffffffff
table-flags_closed t c h = rw h

pub table-close_target : (t : Table) (a : ℕ) → table_file (put_entry t a none) a ≡ none
table-close_target t a = ground arith

pub table-close_others :
    (t : Table) (a c : ℕ) → c ≢ a → table_file (put_entry t a none) c ≡ table_file t c
table-close_others t a c h = ground arith

open_both-Pipes_of :
    (t : Table) (r w : ℕ) (test : Bool)
    → both_closed t r w ≡ test
    → Pipes table_file t (
        if test
        then piped r w (put_entry (put_entry t r (some o_rdwr)) w (some o_rdwr))
        else pipe_failed t)
open_both-Pipes_of t r w true e =
    (ground arith, ground arith, ground arith, ground arith, ground arith, λ c nr nw. ground arith)
open_both-Pipes_of t r w false e = λ c. refl

open_both-Pipes : (t : Table) (r : ℕ) (w : Option ℕ) → Pipes table_file t (open_both t (some r) w)
open_both-Pipes t r none = λ c. refl
open_both-Pipes t r (some w) = open_both-Pipes_of t r w _ refl

pub table-Pipes : (t : Table) → Pipes table_file t (table_pipe2 t)
table-Pipes t = go (first_closed table_limit 0 t)
  where
    go :
        (o : Option ℕ)
        → Pipes table_file t (elim o [
          | none ↦ pipe_failed t
          | some r ↦ open_both t (some r) (first_closed table_limit (r + 1) t)
        ])
    go none = λ c. refl
    go (some r) = open_both-Pipes t r _

abbrev pub table_posix : Posix table_os
table_posix = record {
  file = table_file;
  limit = table_limit;
  open_lem = λ t c. refl;
  open-limit = table-open-limit;
  flags_closed = table-flags_closed;
  dup3_lem = table_dup3-Answers;
  dup3-limit = table_dup3-InLimit;
  dup2_lem = copy_entry-Answers;
  close_target = table-close_target;
  close_others = table-close_others;
  pipe2_lem = table-Pipes;
  fork_lem = λ t c. refl;
}
