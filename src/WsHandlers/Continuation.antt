-- ===== src/WsHandlers/Continuation.antt =====
-- What ws_simple_continuation_handler makes of the newest buffer.
use mathlib.Core.List.{append-nil}
use arclaunch.Prelude.{
  Bool-cases, inl, inr, ℕ, zero, suc, ◌+◌, ◌≤◌, ◌<◌, ◌≡◌, refl, ap, sym, ◌∙◌, true, some, List, [],
  ◌∷◌, ◌++◌, done, ◌>>=◌, length, arith, ◌==◌, if◌then◌else◌,
}
use arclaunch.WsFrame.{
  WsFrame, load, store, get_ws_payload_size, ws_frame_is_final, ws_text, ws_binary,
}
use arclaunch.WsConnection.{SimpleBuffer, Transport, Peer}
use arclaunch.WsConnection.Transmit.{load_stored, store-below, exactly_all}
use arclaunch.WsHandlers.{append_payload, continuation_handler, grown, appended}
use arclaunch.WsHandlers.TextFrames.{text_of, strncpy-text_of, length-text_of}

-- What a frame adds to a buffer, by the type of the buffer.
abbrev pub added : ℕ → List ℕ → List ℕ
added type payload =
    if type == ws_text then text_of payload else if type == ws_binary then payload else []

load_append :
    (at : ℕ) (n : ℕ) (bs : List ℕ) (v : ℕ → ℕ)
    → load (n + length bs) at (store (at + n) bs v) ≡ load n at v ++ bs
load_append at zero bs v = ground (arith, load_stored at bs v)
load_append at (suc n) bs v =
    let count : suc n + length bs ≡ suc (n + length bs) = omega arith in
    let place : at + suc n ≡ at + 1 + n = omega arith in
    let below : store (at + 1 + n) bs v at ≡ v at =
      store-below (at + 1 + n) at bs v (omega arith) in
    rw (count, place, below, load_append (at + 1) n bs v)

load_same :
    (n at : ℕ) (v w : ℕ → ℕ) → ((i : ℕ) → i < at + n → v i ≡ w i) → load n at v ≡ load n at w
load_same zero at v w h = refl
load_same (suc n) at v w h =
    rw (h at (omega arith), load_same n (at + 1) v w λ i lt. h i (omega arith))

module _ {W : Type 0} (io : Transport W) where
  grown-content :
      (b : SimpleBuffer) (n : ℕ)
      → b.nbytes ≤ b.nalloc
      → load b.nbytes 0 (grown io b n).content ≡ load b.nbytes 0 b.content
  grown-content b n le = load_same b.nbytes 0 (grown io b n).content b.content λ i lt. ground arith

  grown-rest :
      (b : SimpleBuffer) (n : ℕ)
      → ((grown io b n).nbytes ≡ b.nbytes)
        × ((grown io b n).type ≡ b.type)
        × (b.nbytes + n ≤ (grown io b n).nalloc)
  grown-rest b n = (ground arith, ground arith, ground arith)

  -- The buffer after the payload has been added.
  filled : SimpleBuffer → List ℕ → SimpleBuffer
  filled b payload =
      if b.type == ws_text
      then appended io b (length payload) (text_of payload)
      else if b.type == ws_binary
      then appended io b (length payload) payload
      else b

  append_payload_lem :
      (b : SimpleBuffer) (f : WsFrame) (payload : List ℕ) (s : Peer W)
      → f.payload ≡ some payload
      → get_ws_payload_size f ≡ length payload
      → append_payload io b f s ≡ done (filled b payload) s
  unfolding append_payload filled
  append_payload_lem b f payload s p n =
      ground (arith, p, n, strncpy-text_of payload, exactly_all payload)

  appended_lem :
      (b : SimpleBuffer) (n : ℕ) (bs : List ℕ)
      → length bs ≡ n
      → load (appended io b n bs).nbytes 0 (appended io b n bs).content
        ≡ load b.nbytes 0 b.content ++ bs
  appended_lem b n bs e =
      let place : 0 + b.nbytes ≡ b.nbytes = omega arith in
      ap (λ m. load (b.nbytes + m) 0 (store b.nbytes bs b.content)) (sym e)
      ∙ ap (λ at. load (b.nbytes + length bs) 0 (store at bs b.content)) (sym place)
      ∙ load_append 0 b.nbytes bs b.content

  filled-content :
      (b : SimpleBuffer) (payload : List ℕ)
      → load (filled b payload).nbytes 0 (filled b payload).content
        ≡ load b.nbytes 0 b.content ++ added b.type payload
  unfolding filled
  filled-content b payload = elim (Bool-cases (b.type == ws_text)) [
    | inl text ↦
        rw text (appended_lem b (length payload) (text_of payload) (length-text_of payload))
    | inr no_text ↦ elim (Bool-cases (b.type == ws_binary)) [
      | inl binary ↦ rw (no_text, binary) (appended_lem b (length payload) payload refl)
      | inr other ↦ rw (no_text, other) (sym (append-nil (load b.nbytes 0 b.content)))
    ]
  ]

  filled-rest :
      (b : SimpleBuffer) (payload : List ℕ)
      → ((filled b payload).nbytes ≤ b.nbytes + length payload)
        × ((filled b payload).type ≡ b.type)
        × ((filled b payload).nalloc ≡ b.nalloc)
  unfolding filled
  filled-rest b payload = (ground arith, ground arith, ground arith)

  -- A frame that continues a message, while the newest buffer waits for it and holds no more than is
  -- allocated: the buffer then holds what it held and, after it, the payload of the frame; where it
  -- is of type text, up to the first zero byte and with zeros from there on, and where it is of
  -- neither type, nothing more. It still holds no more than is allocated, it keeps its type, it is
  -- complete if the frame is final, and the older buffers stay as they are.
  pub continuation_handler-added :
      (f : WsFrame) (first : SimpleBuffer) (older : List SimpleBuffer) (payload : List ℕ)
      (s : Peer W)
      → f.payload ≡ some payload
      → get_ws_payload_size f ≡ length payload
      → s.conn.buffer ≡ some (first ∷ older)
      → (first.is_complete == 0) ≡ true
      → first.nbytes ≤ first.nalloc
      → (b : SimpleBuffer) × (continuation_handler io f s
          ≡ done tt (record s { conn = record s.conn { buffer = some (b ∷ older) } }))
        × (load b.nbytes 0 b.content
            ≡ load first.nbytes 0 first.content ++ added first.type payload)
        × (b.nbytes ≤ b.nalloc)
        × (b.type ≡ first.type)
        × (b.is_complete ≡ ws_frame_is_final f)
  unfolding continuation_handler
  continuation_handler-added f first older payload s p n chain waits fits =
      let size = length payload in
      let g = grown io first size in
      let (nbytes, type, room) = grown-rest first size in
      let (count, type', nalloc) = filled-rest g payload in
      let b : SimpleBuffer = record (filled g payload) { is_complete = ws_frame_is_final f } in
      (
        b,
        rw (◌>>=◌, chain, waits, n, append_payload_lem g f payload s p n),
        filled-content g payload
            ∙ ap (λ m. load m 0 g.content ++ added g.type payload) nbytes
            ∙ rw (grown-content first size fits, type),
        omega (arith, nbytes, room, count, nalloc),
        type' ∙ type,
        refl,
      )
