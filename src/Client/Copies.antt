-- ===== src/Client/Copies.antt =====
-- The client copies what arrives, until nothing does for as long as select waits.
use mathlib.Core.List.{append_assoc, append-nil}
use arclaunch.Prelude.{
  ℕ, ◌≡◌, ◌≤◌, ap, sym, ◌∙◌, subst, true, some, List, [], ◌∷◌, ◌++◌, map, done, length, All,
}
use arclaunch.Text.{Text}
use arclaunch.Client.{
  Calls, Selected, timed_out, ready, resolved, copied, client_loop, client_main, looked_up, opened,
  connected, looked_up, opened, connected,
}

-- The chunks joined.
abbrev pub joined : List (List ℕ) → List ℕ
joined [] = []
joined (c ∷ cs) = c ++ joined cs

-- What one `read` of at most 512 bytes can return, but for the end of the stream.
abbrev pub IsChunk : List ℕ → Type 0
IsChunk c = (length c ≤ 512) × (b : ℕ) × (bs : List ℕ) × (c ≡ b ∷ bs)

-- A socket on which the chunks are still to come, one for each `read`, and an output to which every
-- write is full.
pub record IsStream {W : Type 0} (calls : Calls W) (fd : ℕ) (system : List (List ℕ) → List ℕ → W)
    : Type 0 where
  pub reads :
      (c : List ℕ) (cs : List (List ℕ)) (out : List ℕ)
      → length c ≤ 512
      → calls.read fd 512 (system (c ∷ cs) out) ≡ (some c, system cs out)
  pub writes :
      (bytes : List ℕ) (cs : List (List ℕ)) (out : List ℕ)
      → calls.write 1 bytes (system cs out) ≡ (some (length bytes), system cs (out ++ bytes))

module _ {W : Type 0} (calls : Calls W) (fd : ℕ) (system : List (List ℕ) → List ℕ → W)
    (stream : IsStream calls fd system) where
  step :
      (b : ℕ) (bs : List ℕ) (cs : List (List ℕ)) (out : List ℕ) (answers : List Selected)
      → length (b ∷ bs) ≤ 512
      → client_loop calls fd true (ready true ∷ answers) (system ((b ∷ bs) ∷ cs) out)
        ≡ client_loop calls fd true answers (system cs (out ++ b ∷ bs))
  unfolding client_loop copied
  step b bs cs out answers le = rw (stream.reads (b ∷ bs) cs out le, stream.writes)

  chunk_step :
      (c : List ℕ) (cs : List (List ℕ)) (out : List ℕ) (answers : List Selected)
      → IsChunk c
      → client_loop calls fd true (ready true ∷ answers) (system (c ∷ cs) out)
        ≡ client_loop calls fd true answers (system cs (out ++ c))
  chunk_step c cs out answers (le, b, bs, e) =
      subst
        (λ c.
          client_loop calls fd true (ready true ∷ answers) (system (c ∷ cs) out)
          ≡ client_loop calls fd true answers (system cs (out ++ c)))
        (sym e) (step b bs cs out answers (subst (λ c. length c ≤ 512) e le))

  loop_copies :
      (before after : List (List ℕ)) (out : List ℕ) (rest : List Selected)
      → All IsChunk before
      → client_loop calls fd true
          (map (λ c. ready true) before ++ timed_out ∷ rest)
          (system (before ++ after) out)
        ≡ done 0 (calls.close fd (system after (out ++ joined before)))
  unfolding client_loop
  loop_copies [] after out rest h =
      ap (λ o. done 0 (calls.close fd (system after o))) (sym (append-nil out))
  loop_copies (c ∷ before) after out rest (chunk, h) =
      chunk_step c (before ++ after) out (map (λ c. ready true) before ++ timed_out ∷ rest) chunk
      ∙ loop_copies before after (out ++ c) rest h
      ∙ ap (λ o. done 0 (calls.close fd (system after o))) (append_assoc out c (joined before))

  -- Where every write to the standard output is full: once connected, the client writes the chunks
  -- that its reads return, each of at most 512 bytes and within the time that select waits, to its
  -- standard output in order. At the first pause that is longer it closes the socket and ends with
  -- status 0, and what the service sends after that is not read.
  pub client_main-joined :
      (program node service : Text) (args : List Text) (address : ℕ) (before after : List (List ℕ))
      (rest : List Selected) (w u t s : W)
      → All IsChunk before
      → calls.getaddrinfo node service w ≡ (resolved address, u)
      → calls.socket u ≡ (some fd, t)
      → calls.connect fd address t ≡ (true, s)
      → calls.freeaddrinfo address s ≡ system (before ++ after) []
      → client_main calls
          (program ∷ node ∷ service ∷ args)
          (map (λ c. ready true) before ++ timed_out ∷ rest)
          w
        ≡ done 0 (calls.close fd (system after (joined before)))
  unfolding client_main looked_up opened connected
  client_main-joined program node service args address before after rest w u t s h gai sock con
        free =
      rw (client_main, looked_up, opened, connected, gai, sock, con, free)
        (loop_copies before after [] rest h)
