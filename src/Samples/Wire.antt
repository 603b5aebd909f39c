-- ===== src/Samples/Wire.antt =====
-- A transport for the programs of examples/ws: one stream of bytes in and one out.
use mathlib.Core.List.{append_assoc, append-nil}
use arclaunch.Prelude.{ℕ, zero, suc, ◌≡◌, refl, ap, sym, List, [], ◌∷◌, ◌++◌, length, arith}
use arclaunch.WsConnection.{Transport}
use arclaunch.WsConnection.Transmit.{IsTransport}
use arclaunch.WsConnection.Sent.{IsStream}
use arclaunch.WsConnection.Receive.{IsSource}
use arclaunch.WsConnection.Loopback.{IsEmptyPipe}

pub record Wire : Type 0 where
  pub input : List ℕ
  pub output : List ℕ

abbrev pub front : ℕ → List ℕ → List ℕ
front zero bs = []
front (suc n) [] = []
front (suc n) (b ∷ bs) = b ∷ front n bs

abbrev pub behind : ℕ → List ℕ → List ℕ
behind zero bs = bs
behind (suc n) [] = []
behind (suc n) (b ∷ bs) = behind n bs

-- Unwritten memory holds 0x55 or 0xaa.
abbrev pub wire : Transport Wire
wire = record {
  read = λ fd n w. (front n w.input, record w { input = behind n w.input });
  write = λ fd bs w. record w { output = w.output ++ bs };
  random = λ w. (0x1234, w);
  stack = λ i. 0x55;
  heap = λ i. 0xaa;
}

abbrev pub feed : List ℕ → Wire → Wire
feed bs w = record w { input = bs ++ w.input }

front_append : (xs ys : List ℕ) → front (length xs) (xs ++ ys) ≡ xs
front_append [] ys = refl
front_append (x ∷ xs) ys = ap (λ t. x ∷ t) (front_append xs ys)

behind_append : (xs ys : List ℕ) → behind (length xs) (xs ++ ys) ≡ ys
behind_append [] ys = refl
behind_append (x ∷ xs) ys = behind_append xs ys

pub wire-IsTransport : IsTransport wire
wire-IsTransport = record { stack = λ i. omega arith; heap = λ i. omega arith }

pub wire-IsStream : IsStream wire
wire-IsStream = record {
  joins = λ fd first then_bytes w.
      ap (λ o. let v : Wire = record w { output = o } in v)
        (append_assoc w.output first then_bytes);
}

pub wire-IsSource : (fd : ℕ) → IsSource wire fd feed
wire-IsSource fd = record {
  reads = λ first others w. rw (
    append_assoc first others w.input,
    front_append first (others ++ w.input),
    behind_append first (others ++ w.input),
  );
}

-- A pipe: what one end writes the other reads.
abbrev pub pipe : Transport (List ℕ)
pipe = record {
  read = λ fd n q. (front n q, behind n q);
  write = λ fd bs q. q ++ bs;
  random = λ q. (0x1234, q);
  stack = λ i. 0x55;
  heap = λ i. 0xaa;
}

abbrev pub fill : List ℕ → List ℕ → List ℕ
fill bs q = bs ++ q

pub pipe-IsTransport : IsTransport pipe
pipe-IsTransport = record { stack = λ i. omega arith; heap = λ i. omega arith }

pub pipe-IsStream : IsStream pipe
pipe-IsStream = record { joins = λ fd first then_bytes q. append_assoc q first then_bytes }

pub pipe-IsSource : (fd : ℕ) → IsSource pipe fd fill
pipe-IsSource fd = record {
  reads = λ first others q. rw (
    append_assoc first others q,
    front_append first (others ++ q),
    behind_append first (others ++ q),
  );
}

pub pipe-IsEmptyPipe : (fd : ℕ) → IsEmptyPipe pipe fd fill []
pipe-IsEmptyPipe fd = record { writes = λ bytes. sym (append-nil bytes); nothing = refl }
