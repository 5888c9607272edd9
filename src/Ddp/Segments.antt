-- ===== src/Ddp/Segments.antt =====
-- A message as the sequence of its segments: what the two sends of suiw/ddp/ddp.cpp are meant to put
-- on the wire, said without their loops.
use Prim.Native.Nat.{bit_or}
use mathlib.Core.List.{flatten}
use mathlib.Core.Path.{ap₂}
use soft_ui_warp.Prelude.{
  ℕ, zero, suc, ◌+◌, ◌-◌, ◌%◌, ◌^◌, ◌≤◌, ◌<◌, ◌≡◌, refl, sym, ap, ◌∙◌, ◌≢◌, Bool, false, List, [],
  ◌∷◌, ◌++◌, append-nil, append_assoc, arith, if◌then◌else◌, length,
}
use soft_ui_warp.Wire.{le_bytes}
use soft_ui_warp.Memory.{Memory, load, poke, length-load, load-append}
use soft_ui_warp.Mpa.Frame.{frame}
use soft_ui_warp.Ddp.{Sge, ddp_flag_last}
use soft_ui_warp.Ddp.Send.{mulpdu, packet_length, to_send}

-- The payloads of the segments for the last `remaining` bytes of a buffer.
unfoldable pub pieces_from : Memory → ℕ → Sge → ℕ → List (List ℕ)
pieces_from mem zero sg remaining = []
pieces_from mem (suc fuel) sg zero = []
pieces_from mem (suc fuel) sg (suc r) =
    load mem ((sg.addr + (sg.len - suc r)) % 2 ^ 64) (packet_length (suc r))
    ∷ pieces_from mem fuel sg (suc r - packet_length (suc r))

unfoldable pub pieces : Memory → Sge → List (List ℕ)
unfolding pieces_from
pieces mem sg = pieces_from mem (to_send sg.len) sg (to_send sg.len)

unfoldable pub all_pieces : Memory → List Sge → List (List ℕ)
unfolding pieces
all_pieces mem [] = []
all_pieces mem (sg ∷ sgs) = pieces mem sg ++ all_pieces mem sgs

-- Every piece has a byte, and fits a segment.
abbrev pub Fit : List (List ℕ) → Type 0
Fit [] = Unit {0}
Fit (c ∷ cs) = (0 < length c) × (length c ≤ mulpdu) × Fit cs

-- A segment's flags, by the pieces that follow: `DDP_FLAG_LAST` on the final one of a message
-- that is to end here.
unfoldable pub flags : Bool → ℕ → List (List ℕ) → ℕ
flags final b [] = if final then bit_or b ddp_flag_last else b
flags final b (c ∷ cs) = b

module _ {H : Type 0} (bytes : H → List ℕ) (advance : ℕ → H → H) where
  -- The header behind some pieces.
  unfoldable pub advance_all : List (List ℕ) → H → H
  advance_all [] h = h
  advance_all (c ∷ cs) h = advance_all cs (advance (length c) h)

  -- The frames of a sequence of pieces.
  unfoldable pub wire : Bool → ℕ → H → List (List ℕ) → List ℕ
  wire final b h [] = []
  wire final b h (c ∷ cs) =
      frame (le_bytes 1 (flags final b cs) ++ (bytes h ++ c))
      ++ wire final b (advance (length c) h) cs

  -- Where the pieces go: each to the place of its header's offset.
  unfoldable pub deposit : (H → ℕ) → Memory → H → List (List ℕ) → Memory
  deposit place mem h [] = mem
  deposit place mem h (c ∷ cs) = deposit place (poke mem (place h) c) (advance (length c) h) cs

  pub advance_all-append :
      (xs ys : List (List ℕ)) (h : H) → advance_all (xs ++ ys) h ≡ advance_all ys (advance_all xs h)
  unfolding advance_all
  advance_all-append [] ys h = refl
  advance_all-append (x ∷ xs) ys h = advance_all-append xs ys (advance (length x) h)

  -- Pieces that more pieces follow carry no mark.
  pub wire-append :
      (final : Bool) (b : ℕ) (h : H) (xs : List (List ℕ)) (y : List ℕ) (ys : List (List ℕ))
      → wire final b h (xs ++ y ∷ ys)
        ≡ wire false b h xs ++ wire final b (advance_all xs h) (y ∷ ys)
  unfolding wire advance_all flags
  wire-append final b h [] y ys = refl
  wire-append final b h (x ∷ []) y ys =
      ap (λ t. t ++ wire final b (advance (length x) h) (y ∷ ys))
        (sym (append-nil (frame (le_bytes 1 b ++ (bytes h ++ x)))))
  wire-append final b h (x ∷ z ∷ xs) y ys =
      ap (◌++◌ (frame (le_bytes 1 b ++ (bytes h ++ x))))
        (wire-append final b (advance (length x) h) (z ∷ xs) y ys)
      ∙ sym (
          append_assoc (frame (le_bytes 1 b ++ (bytes h ++ x)))
            (wire false b (advance (length x) h) (z ∷ xs))
            (wire final b (advance_all (z ∷ xs) (advance (length x) h)) (y ∷ ys)))

-- The pieces make up the buffer's last `remaining` bytes, in order.
flatten-pieces_from :
    (mem : Memory) (fuel : ℕ) (sg : Sge) (remaining : ℕ)
    → remaining ≤ fuel
    → remaining ≤ sg.len
    → sg.addr + sg.len ≤ 2 ^ 64
    → flatten (pieces_from mem fuel sg remaining)
      ≡ load mem (sg.addr + (sg.len - remaining)) remaining
unfolding pieces_from flatten load
flatten-pieces_from mem zero sg remaining f l w =
    ap (load mem (sg.addr + (sg.len - remaining))) (let z : 0 ≡ remaining = omega arith in z)
flatten-pieces_from mem (suc fuel) sg zero f l w = refl
flatten-pieces_from mem (suc fuel) sg (suc r) f l w =
    let n = packet_length (suc r) in
    let at = sg.addr + (sg.len - suc r) in
    let some_bytes : 0 < n = ground arith in
    let few : n ≤ suc r = ground arith in
    let e : at % 2 ^ 64 ≡ at = omega arith in
    let d : sg.addr + (sg.len - (suc r - n)) ≡ at + n = omega arith in
    let k : suc r ≡ n + (suc r - n) = omega arith in
    let ih = flatten-pieces_from mem fuel sg (suc r - n) (omega arith) (omega arith) w in
    let ih' : flatten (pieces_from mem fuel sg (suc r - n)) ≡ load mem (at + n) (suc r - n) =
      ih ∙ ap (λ a. load mem a (suc r - n)) d in
    ap₂ ◌++◌ (ap (λ a. load mem a n) e) ih'
    ∙ sym (load-append mem at n (suc r - n))
    ∙ ap (load mem at) (sym k)

pieces_from-Fit :
    (mem : Memory) (fuel : ℕ) (sg : Sge) (remaining : ℕ) → Fit (pieces_from mem fuel sg remaining)
unfolding pieces_from
pieces_from-Fit mem zero sg remaining = tt
pieces_from-Fit mem (suc fuel) sg zero = tt
pieces_from-Fit mem (suc fuel) sg (suc r) =
    let n = packet_length (suc r) in
    let l = length-load mem ((sg.addr + (sg.len - suc r)) % 2 ^ 64) n in
    (ground (arith, l), ground (arith, l), pieces_from-Fit mem fuel sg (suc r - n))

Fit-append : (xs ys : List (List ℕ)) → Fit xs → Fit ys → Fit (xs ++ ys)
Fit-append [] ys h g = g
Fit-append (x ∷ xs) ys h g = (h.0, h.1, Fit-append xs ys h.2 g)

-- No segment of a message is empty or over `mulpdu`.
pub all_pieces-Fit : (mem : Memory) (sgs : List Sge) → Fit (all_pieces mem sgs)
unfolding all_pieces
all_pieces-Fit mem [] = tt
all_pieces-Fit mem (sg ∷ sgs) =
    Fit-append (pieces mem sg) (all_pieces mem sgs)
      (unfold pieces in pieces_from-Fit mem (to_send sg.len) sg (to_send sg.len))
      (all_pieces-Fit mem sgs)

-- A gather list within the address space, of entries that an `int` can count.
abbrev pub InRange : List Sge → Type 0
InRange [] = Unit {0}
InRange (sg ∷ sgs) = (sg.len < 2 ^ 31) × (sg.addr + sg.len ≤ 2 ^ 64) × InRange sgs

-- The bytes of a gather list.
unfoldable pub gathered : Memory → List Sge → List ℕ
gathered mem [] = []
gathered mem (sg ∷ sgs) = load mem sg.addr sg.len ++ gathered mem sgs

flatten-append : (xs ys : List (List ℕ)) → flatten (xs ++ ys) ≡ flatten xs ++ flatten ys
unfolding flatten
flatten-append [] ys = refl
flatten-append (x ∷ xs) ys =
    ap (◌++◌ x) (flatten-append xs ys) ∙ sym (append_assoc x (flatten xs) (flatten ys))

-- The segments' payloads in order are the bytes of the gather list, none lost or repeated.
pub flatten-all_pieces :
    (mem : Memory) (sgs : List Sge) → InRange sgs → flatten (all_pieces mem sgs) ≡ gathered mem sgs
unfolding all_pieces gathered flatten pieces
flatten-all_pieces mem [] h = refl
flatten-all_pieces mem (sg ∷ sgs) h =
    let e : to_send sg.len ≡ sg.len = ground (arith, h.0) in
    let a : sg.addr + (sg.len - sg.len) ≡ sg.addr = omega arith in
    flatten-append (pieces mem sg) (all_pieces mem sgs)
    ∙ ap₂ ◌++◌
        (ap (λ n. flatten (pieces_from mem n sg n)) e
          ∙ flatten-pieces_from mem sg.len sg sg.len (omega arith) (omega arith) h.1
          ∙ ap (λ i. load mem i sg.len) a)
        (flatten-all_pieces mem sgs h.2)

append-nil_right {ℓ} : {A : Type ℓ} (xs ys : List A) → xs ++ ys ≡ [] → ys ≡ []
append-nil_right [] ys e = e
append-nil_right (x ∷ xs) ys e = cc

-- What an `int` counts of the last entry.
abbrev pub last_len : List Sge → ℕ
last_len [] = 0
last_len (sg ∷ []) = to_send sg.len
last_len (sg ∷ sg' ∷ sgs) = last_len (sg' ∷ sgs)

pieces_nonempty : (mem : Memory) (sg : Sge) → 0 < to_send sg.len → pieces mem sg ≢ []
unfolding pieces
pieces_nonempty mem sg h = go (to_send sg.len) h
  where
    go : (n : ℕ) → 0 < n → pieces_from mem n sg n ≢ []
    go zero k e = absurd (omega arith)
    go (suc n) k e = unfold pieces_from in cc

pub all_pieces_nonempty :
    (mem : Memory) (sgs : List Sge) → 0 < last_len sgs → all_pieces mem sgs ≢ []
unfolding all_pieces
all_pieces_nonempty mem [] h e = absurd (omega arith)
all_pieces_nonempty mem (sg ∷ []) h e =
    pieces_nonempty mem sg h (sym (append-nil (pieces mem sg)) ∙ e)
all_pieces_nonempty mem (sg ∷ sg' ∷ sgs) h e =
    all_pieces_nonempty mem (sg' ∷ sgs) h
      (append-nil_right (pieces mem sg) (all_pieces mem (sg' ∷ sgs)) e)
