-- ===== src/WsHandlers/TextFrames.antt =====
-- What ws_simple_text_handler makes of a text frame.
use arclaunch.Prelude.{
  ℕ, zero, suc, ◌<◌, ◌≡◌, refl, ap, sym, ◌∙◌, some, List, [], ◌∷◌, done, ◌>>=◌, length, arith, All,
  ◌==◌, if◌then◌else◌,
}
use arclaunch.Prelude.Bytes.{le_value}
use arclaunch.WsFrame.{WsFrame, load, store, get_ws_payload_size, ws_frame_is_final}
use arclaunch.WsConnection.{SimpleBuffer, Transport, Peer}
use arclaunch.WsConnection.Received.{Carries}
use arclaunch.WsConnection.Transmit.{load_stored}
use arclaunch.WsHandlers.{zeros, strncpy, strncpy_at, text_handler}

-- A text as C reads it: zeros from the first zero byte on.
abbrev pub text_of : List ℕ → List ℕ
text_of [] = []
text_of (b ∷ bs) = if b == 0 then zeros (suc (length bs)) else b ∷ text_of bs

pub strncpy-text_of : (bs : List ℕ) → strncpy (length bs) bs ≡ some (text_of bs)
unfolding strncpy
strncpy-text_of [] = refl
strncpy-text_of (b ∷ bs) = ground (arith, strncpy-text_of bs)

length-zeros : (n : ℕ) → length (zeros n) ≡ n
length-zeros zero = refl
length-zeros (suc n) = ap suc (length-zeros n)

pub length-text_of : (bs : List ℕ) → length (text_of bs) ≡ length bs
length-text_of [] = refl
length-text_of (b ∷ bs) = ground (arith, length-text_of bs, length-zeros (length bs))

pub text_of_whole : (bs : List ℕ) → All (λ b. 0 < b) bs → text_of bs ≡ bs
text_of_whole [] h = refl
text_of_whole (b ∷ bs) h = ground (arith, h.0, text_of_whole bs h.1)

pub text_copied :
    (f : WsFrame) (op : ℕ) (payload : List ℕ)
    → Carries f op payload
    → strncpy_at f.payload (get_ws_payload_size f) ≡ some (text_of payload)
text_copied f op payload carries =
    ap (λ n. strncpy_at f.payload n) carries.size
    ∙ ap (λ p. strncpy_at p (length payload)) carries.payload
    ∙ strncpy-text_of payload

module _ {W : Type 0} (io : Transport W) where
  -- The buffer that holds a text frame.
  abbrev pub text_buffer : WsFrame → List ℕ → SimpleBuffer
  text_buffer f payload = record {
    type = le_value (load 4 0 io.heap);
    nbytes = length payload;
    nalloc = length payload;
    is_complete = ws_frame_is_final f;
    content = store 0 (text_of payload) io.heap;
  }

  pub text_handler_first :
      (f : WsFrame) (op : ℕ) (payload : List ℕ) (s : Peer W)
      → Carries f op payload
      → s.conn.buffer ≡ some []
      → text_handler io f s
        ≡ done tt (record s { conn = record s.conn { buffer = some (text_buffer f payload ∷ []) } })
  unfolding text_handler
  text_handler_first f op payload s carries e =
      rw (◌>>=◌, e, text_copied f op payload carries, carries.size)

  pub load_text :
      (f : WsFrame) (payload : List ℕ)
      → load (length payload) 0 (text_buffer f payload).content ≡ text_of payload
  load_text f payload =
      ap (λ n. load n 0 (text_buffer f payload).content) (sym (length-text_of payload))
      ∙ load_stored 0 (text_of payload) io.heap
