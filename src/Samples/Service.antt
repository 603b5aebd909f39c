-- ===== src/Samples/Service.antt =====
-- A service that sends three chunks, and a client of it.
use arclaunch.Prelude.{
  ℕ, ◌≡◌, refl, true, some, List, [], ◌∷◌, ◌++◌, Option, done, length, leb, zero, suc, arith, ◌==◌,
  if◌then◌else◌,
}
use arclaunch.Text.{codes}
use arclaunch.Client.{Calls, resolved, ready, timed_out, client_main}
use arclaunch.Client.Copies.{IsStream, client_main-joined}

pub record Wired : Type 0 where
  pub coming : List (List ℕ)
  pub stdout : List ℕ
  pub stderr : List ℕ

abbrev wired : List (List ℕ) → List ℕ → Wired
wired cs out = record { coming = cs; stdout = out; stderr = [] }

abbrev first_chunk : List (List ℕ) → List ℕ
first_chunk [] = []
first_chunk (c ∷ cs) = c

abbrev later_chunks : List (List ℕ) → List (List ℕ)
later_chunks [] = []
later_chunks (c ∷ cs) = cs

abbrev take : ℕ → List ℕ → List ℕ
take zero bytes = []
take (suc n) [] = []
take (suc n) (b ∷ bytes) = b ∷ take n bytes

abbrev drop : ℕ → List ℕ → List ℕ
drop zero bytes = bytes
drop (suc n) [] = []
drop (suc n) (b ∷ bytes) = drop n bytes

-- At most `n` bytes of the first chunk; the others stay.
abbrev read_chunk : ℕ → Wired → Option (List ℕ) × Wired
read_chunk n w =
    if leb (length (first_chunk w.coming)) n
    then (some (first_chunk w.coming), record w { coming = later_chunks w.coming })
    else (
      some (take n (first_chunk w.coming)),
      record w { coming = drop n (first_chunk w.coming) ∷ later_chunks w.coming },
    )

abbrev output : ℕ → List ℕ → Wired → Wired
output fd bytes w =
    if fd == 1
    then record w { stdout = w.stdout ++ bytes }
    else record w { stderr = w.stderr ++ bytes }

abbrev calls : Calls Wired
calls = record {
  getaddrinfo = λ node service w. (resolved 8, w);
  gai_strerror = λ n. codes "no such service";
  freeaddrinfo = λ address w. w;
  socket = λ w. (some 3, w);
  connect = λ fd address w. (true, w);
  read = λ fd n w. read_chunk n w;
  write = λ fd bytes w. (some (length bytes), output fd bytes w);
  close = λ fd w. w;
}

calls-IsStream : IsStream calls 3 wired
calls-IsStream = record { reads = λ c cs out le. ground arith; writes = λ bytes cs out. refl }

client_main-joined_example :
    client_main calls
      (codes "client" ∷ codes "localhost" ∷ codes "http" ∷ [])
      (ready true ∷ ready true ∷ timed_out ∷ ready true ∷ [])
      (wired ((1 ∷ 2 ∷ []) ∷ (3 ∷ []) ∷ (4 ∷ []) ∷ []) [])
    ≡ done 0 (wired ((4 ∷ []) ∷ []) (1 ∷ 2 ∷ 3 ∷ []))
client_main-joined_example =
    client_main-joined calls 3 wired calls-IsStream (codes "client") (codes "localhost")
      (codes "http") [] 8 ((1 ∷ 2 ∷ []) ∷ (3 ∷ []) ∷ []) ((4 ∷ []) ∷ []) (ready true ∷ [])
      (wired ((1 ∷ 2 ∷ []) ∷ (3 ∷ []) ∷ (4 ∷ []) ∷ []) [])
      (wired ((1 ∷ 2 ∷ []) ∷ (3 ∷ []) ∷ (4 ∷ []) ∷ []) [])
      (wired ((1 ∷ 2 ∷ []) ∷ (3 ∷ []) ∷ (4 ∷ []) ∷ []) [])
      (wired ((1 ∷ 2 ∷ []) ∷ (3 ∷ []) ∷ (4 ∷ []) ∷ []) [])
      ((omega arith, 1, 2 ∷ [], refl), ((omega arith, 3, [], refl), tt)) refl refl refl refl
