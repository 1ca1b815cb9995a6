-- ===== src/Z21/Frames.antt =====
-- Frames: what is built is valid, and a datagram is split into the frames it was joined from.
use bigfred.Base.{
  ℕ, zero, suc, ◌+◌, ◌≡◌, ◌≤◌, ◌<◌, refl, ap, ◌∙◌, true, ◌||◌, some, List, [], ◌∷◌, ◌++◌, length,
  length-append, take, All, arith, Bool-cases, Option-cases, inl, inr, ltb, nat_key,
}
use mathlib.Core.List.{append_assoc}
use bigfred.Z21.Protocol.{
  drop, uint16, packet_header, split_loop, split_z21_datagram, valid_frame, build_reply,
}

-- A reply with a header below 2 ^ 16 and a payload of fewer than 65532 bytes is a valid frame,
-- with this header and its length.
pub build_reply-IsFrame :
    (header : ℕ) (payload : List ℕ)
    → header < 65536
    → length payload < 65532
    → (valid_frame (build_reply header payload) ≡ true)
      × (packet_header (build_reply header payload) ≡ some (4 + length payload, header))
unfolding valid_frame build_reply packet_header
build_reply-IsFrame header payload h l = ground (arith, h, l)

abbrev pub join : List (List ℕ) → List ℕ
join [] = []
join (f ∷ fs) = f ++ join fs

take-append : (xs ys : List ℕ) → take (length xs) (xs ++ ys) ≡ xs
take-append [] [] = refl
take-append [] (y ∷ ys) = refl
take-append (x ∷ xs) ys = ap (λ l. x ∷ l) (take-append xs ys)

drop-append : (xs ys : List ℕ) → drop (length xs) (xs ++ ys) ≡ ys
drop-append [] ys = refl
drop-append (x ∷ xs) ys = drop-append xs ys

-- A valid frame's header is found also when more follows.
frame_header :
    (f more : List ℕ)
    → valid_frame f ≡ true
    → (h : ℕ) × (packet_header (f ++ more) ≡ some (length f, h)) × (4 ≤ length f)
unfolding valid_frame packet_header
frame_header (a ∷ b ∷ c ∷ d ∷ rest) more v = (uint16 c d, ground (arith, v), omega arith)
frame_header [] more v = absurd (cc v)
frame_header (a ∷ []) more v = absurd (cc v)
frame_header (a ∷ b ∷ []) more v = absurd (cc v)
frame_header (a ∷ b ∷ c ∷ []) more v = absurd (cc v)

split_loop-frame :
    (n : ℕ) (f more : List ℕ)
    → valid_frame f ≡ true
    → split_loop (suc n) (f ++ more) ≡ f ∷ split_loop n more
unfolding split_loop
split_loop-frame n f more v =
    let (h, e, l) = frame_header f more v in
    rw (e, split_loop)
      (ground (
        arith,
        l,
        length-append f more,
        take-append f more,
        ap (split_loop n) (drop-append f more),
      ))

split_loop-nil : (n : ℕ) → split_loop n [] ≡ []
unfolding split_loop packet_header
split_loop-nil zero = refl
split_loop-nil (suc n) = refl

split_loop-join :
    (n : ℕ) (frames : List (List ℕ))
    → All (λ f. valid_frame f ≡ true) frames
    → length (join frames) ≤ n
    → split_loop n (join frames) ≡ frames
split_loop-join n [] v l = split_loop-nil n
split_loop-join zero (f ∷ frames) v l =
    let (h, e, four) = frame_header f [] v.0 in
    absurd (omega (arith, four, l, length-append f (join frames)))
split_loop-join (suc n) (f ∷ frames) v l =
    let (h, e, four) = frame_header f [] v.0 in
    split_loop-frame n f (join frames) v.0
    ∙ ap (λ r. f ∷ r)
        (split_loop-join n frames v.1 (omega (arith, four, l, length-append f (join frames))))

-- A datagram that joins valid frames is split into these frames.
pub split_z21_datagram-join :
    (frames : List (List ℕ))
    → All (λ f. valid_frame f ≡ true) frames
    → split_z21_datagram (join frames) ≡ frames
unfolding split_z21_datagram
split_z21_datagram-join frames v = split_loop-join (length (join frames)) frames v (omega arith)

take-drop : (n : ℕ) (b : List ℕ) → take n b ++ drop n b ≡ b
take-drop zero b = refl
take-drop (suc n) [] = refl
take-drop (suc n) (x ∷ b) = ap (λ l. x ∷ l) (take-drop n b)

length-take : (n : ℕ) (b : List ℕ) → n ≤ length b → length (take n b) ≡ n
length-take zero b l = refl
length-take (suc n) [] l = absurd (omega (arith, l))
length-take (suc n) (x ∷ b) l = omega (arith, length-take n b (omega (arith, l)))

take-IsFrame :
    (l h : ℕ) (b : List ℕ)
    → packet_header b ≡ some (l, h)
    → 4 ≤ l
    → l ≤ length b
    → valid_frame (take l b) ≡ true
unfolding valid_frame packet_header
take-IsFrame (suc (suc (suc (suc n)))) h (a ∷ b ∷ c ∷ d ∷ rest) e f g =
    ground (arith, e, length-take n rest (omega (arith, g)))
take-IsFrame l h (a ∷ b ∷ c ∷ []) e f g = absurd (cc e)
take-IsFrame l h (a ∷ b ∷ []) e f g = absurd (cc e)
take-IsFrame l h (a ∷ []) e f g = absurd (cc e)
take-IsFrame l h [] e f g = absurd (cc e)
take-IsFrame (suc (suc (suc zero))) h (a ∷ b ∷ c ∷ d ∷ rest) e f g = absurd (omega (arith, f))
take-IsFrame (suc (suc zero)) h (a ∷ b ∷ c ∷ d ∷ rest) e f g = absurd (omega (arith, f))
take-IsFrame (suc zero) h (a ∷ b ∷ c ∷ d ∷ rest) e f g = absurd (omega (arith, f))
take-IsFrame zero h (a ∷ b ∷ c ∷ d ∷ rest) e f g = absurd (omega (arith, f))

-- Frames that make up the front of a datagram.
abbrev pub AreFrontOf : List ℕ → List (List ℕ) → Type 0
AreFrontOf b frames =
    All (λ f. valid_frame f ≡ true) frames × ((rest : List ℕ) × (join frames ++ rest ≡ b))

AreFrontOf-cons :
    (f b : List ℕ) (frames : List (List ℕ))
    → valid_frame f ≡ true
    → AreFrontOf b frames
    → AreFrontOf (f ++ b) (f ∷ frames)
AreFrontOf-cons f b frames v (w, (rest, e)) =
    ((v, w), (rest, append_assoc f (join frames) rest ∙ ap (λ l. f ++ l) e))

split_loop-AreFrontOf : (n : ℕ) (b : List ℕ) → AreFrontOf b (split_loop n b)
unfolding split_loop
split_loop-AreFrontOf zero b = (tt, (b, refl))
split_loop-AreFrontOf (suc n) b = elim (Option-cases (packet_header b)) [
  | inl e ↦ rw (e, split_loop) (tt, (b, refl))
  | inr ((l, h), e) ↦ elim (Bool-cases (ltb l 4 || ltb (length b) l)) [
    | inl p ↦ rw (e, split_loop) (rw p (tt, (b, refl)))
    | inr p ↦
        rw (e, split_loop)
          (rw p (
            rw (take-drop l b) at (
              AreFrontOf-cons (take l b) (drop l b) (split_loop n (drop l b))
                (take-IsFrame l h b e (ground arith) (ground arith))
                (split_loop-AreFrontOf n (drop l b)))))
  ]
]

-- Whatever a datagram holds, splitting it answers valid frames, which make up its front.
pub split_z21_datagram-AreFrontOf : (b : List ℕ) → AreFrontOf b (split_z21_datagram b)
unfolding split_z21_datagram
split_z21_datagram-AreFrontOf b = split_loop-AreFrontOf (length b) b
