-- ===== src/Token/MultiKey/Frames.antt =====
-- A frame is read back off the front of a buffer.
use enkit.Common.{
  ◌+◌, ◌<◌, ◌≤◌, ◌≡◌, ◌∙◌, refl, ap, false, List, [], ◌∷◌, ◌++◌, length, length-append, take, drop,
  some, ltb, ◌==◌, arith,
}
use enkit.Token.{Bytes, Varints, IsVarints}
use enkit.Token.MultiKey.{frame, split_frame}
use mathlib.Core.List.{append_assoc}
use mathlib.Core.Path.{subst}

-- math.MaxInt32 is the most that Decode takes, and it takes no empty frame.
abbrev pub IsFramed : Bytes → Type 0
IsFramed c = (0 < length c) × (length c ≤ 2147483647)

take_front {ℓ} : {A : Type ℓ} (xs ys : List A) → take (length xs) (xs ++ ys) ≡ xs
take_front [] ys = refl
take_front (x ∷ xs) ys = ap (λ l. x ∷ l) (take_front xs ys)

drop_front {ℓ} : {A : Type ℓ} (xs ys : List A) → drop (length xs) (xs ++ ys) ≡ ys
drop_front [] ys = refl
drop_front (x ∷ xs) ys = drop_front xs ys

module _ (v : Varints) (is_v : IsVarints v) where
  pub split_frame-frame :
      (c rest : Bytes) → IsFramed c → split_frame v (frame v c ++ rest) ≡ some (c, rest)
  unfolding split_frame frame
  split_frame-frame c rest (some_c, small) =
      let a : frame v c ++ rest ≡ v.put_uvarint (length c) ++ (c ++ rest) =
        append_assoc (v.put_uvarint (length c)) c rest in
      let p = is_v.uvarint-put_uvarint (length c) (c ++ rest) (omega arith) in
      let n1 : ltb 2147483647 (length c) ≡ false = ground arith in
      let n2 : (length c == 0) ≡ false = ground arith in
      let n3 : ltb (length (v.put_uvarint (length c) ++ (c ++ rest)))
            (length (v.put_uvarint (length c)) + length c)
          ≡ false =
        ground
          (arith, length-append (v.put_uvarint (length c)) (c ++ rest), length-append c rest) in
      ap (split_frame v) a
      ∙ rw
          (
            p,
            split_frame,
            n1,
            n2,
            n3,
            drop_front (v.put_uvarint (length c)) (c ++ rest),
            take_front c rest,
            drop_front c rest,
          )
          refl

  length-frame : (c rest : Bytes) → length c + length rest ≤ length (frame v c ++ rest)
  unfolding frame
  length-frame c rest =
      omega (arith, length-append (frame v c) rest, length-append (v.put_uvarint (length c)) c)

  -- A frame is shorter than what it stands in.
  pub frame_fits :
      (c rest buffer : Bytes)
      → frame v c ++ rest ≡ buffer
      → 0 < length c
      → length buffer ≤ 2147483647
      → IsFramed c × (length rest < length buffer)
  frame_fits c rest buffer at filled small =
      let fits : length c + length rest ≤ length buffer =
        subst (λ x. length c + length rest ≤ length x) at (length-frame c rest) in
      ((filled, omega arith), omega arith)
