-- ===== src/Mpa/Frame.antt =====
-- The framing of `mpa_send` and `mpa_recv` as one format, and what each does with it.
use mathlib.Core.List.{flatten}
use soft_ui_warp.Prelude.{
  ℕ, ◌+◌, ◌%◌, ◌^◌, ◌<◌, ◌≡◌, ap, ◌∙◌, List, [], ◌∷◌, ◌++◌, arith, length, replicate, length-append,
}
use native.Mathlib.Nat.{add-zero}
use soft_ui_warp.Wire.{le_bytes, htons}
use soft_ui_warp.Tcp.{Tcp}
use soft_ui_warp.Mpa.{mpa_send, ulpdu_length}

-- What follows a payload of n bytes.
abbrev pub trailer : ℕ → List ℕ
trailer n = replicate ((n + 2) % 4) 0 ++ le_bytes 4 0

-- A payload on the wire. The length field is two bytes, most significant first.
abbrev pub frame : List ℕ → List ℕ
frame payload = le_bytes 2 (htons (length payload)) ++ (payload ++ trailer (length payload))

ulpdu_length_lem :
    (len : ℕ) (sgs : List (List ℕ))
    → len < 2 ^ 16
    → ulpdu_length len sgs ≡ (len + length (flatten sgs)) % 2 ^ 16
unfolding ulpdu_length flatten
ulpdu_length_lem len [] h = omega arith
ulpdu_length_lem len (sg ∷ sgs) h = omega (
  arith,
  ulpdu_length_lem ((len + length sg) % 2 ^ 16) sgs (omega arith),
  length-append sg (flatten sgs),
)

-- The length of the frame is the gathered length modulo 2 ^ 16, whatever that is: the code's test
-- against `emss` never fires.
pub mpa_send_any :
    (tcp : Tcp) (s : tcp.State) (sgs : List (List ℕ))
    → let n = length (flatten sgs) % 2 ^ 16 in
      mpa_send tcp s sgs ≡ tcp.sendmsg s (le_bytes 2 (htons n) ++ (flatten sgs ++ trailer n))
unfolding mpa_send
mpa_send_any tcp s sgs =
    ground (arith, ulpdu_length_lem 0 sgs (omega arith), add-zero (length (flatten sgs)))

-- A payload that fits goes out as one frame.
pub mpa_send-frame :
    (tcp : Tcp) (s : tcp.State) (sgs : List (List ℕ))
    → length (flatten sgs) < 2 ^ 16
    → mpa_send tcp s sgs ≡ tcp.sendmsg s (frame (flatten sgs))
mpa_send-frame tcp s sgs h =
    let e : length (flatten sgs) % 2 ^ 16 ≡ length (flatten sgs) = omega arith in
    mpa_send_any tcp s sgs
    ∙ ap (λ n. tcp.sendmsg s (le_bytes 2 (htons n) ++ (flatten sgs ++ trailer n))) e
