-- ===== src/Token/MultiKey/Encoding.antt =====
-- What an encoding for several keys that succeeds is made of.
use enkit.Common.{◌≡◌, ◌∙◌, inl, inr, refl, ap, sym, List, ◌∷◌, ◌++◌}
use enkit.Common.Results.{Result, Result-cases, >>=-ok, ok, err, ◌>>=◌}
use enkit.Token.{Bytes, TokenError, BinaryEncoder, Varints}
use enkit.Token.MultiKey.{MultiKey, frame, encode_keys, encode_with, multi_encode}

module _ {ℓ} {W : Type ℓ} (v : Varints) where
  pub encode_keys-ok :
      (key : Bytes) (kh : BinaryEncoder W) (khs : List (BinaryEncoder W)) (w w' : W)
      (frames : Bytes)
      → encode_keys v (kh ∷ khs) key w ≡ (w', ok frames)
      → (ek rest : Bytes) × (w1 : W) × (kh.encode key w ≡ (w1, ok ek))
        × (encode_keys v khs key w1 ≡ (w', ok rest))
        × (frame v ek ++ rest ≡ frames)
  unfolding encode_keys
  encode_keys-ok key kh khs w w' frames h = elim (Result-cases ((kh.encode key w).1)) [
    | inr (e, p) ↦
        (let o : encode_keys v (kh ∷ khs) key w ≡ ((kh.encode key w).0, err e) =
            rw (p, encode_keys) refl in
          let x : err e ≡ ok frames = ap (λ (r : W × Result TokenError Bytes). r.1) (sym o ∙ h) in
          cc)
    | inl (ek, p) ↦
        (let w1 = (kh.encode key w).0 in
          let later = encode_keys v khs key w1 in
          let o : encode_keys v (kh ∷ khs) key w
              ≡ (later.0, later.1 >>= λ frames. ok (frame v ek ++ frames)) =
            rw (p, encode_keys) refl in
          let (rest, q, r) =
            >>=-ok later.1 (λ (frames : Bytes). ok (frame v ek ++ frames)) frames
              (ap (λ (x : W × Result TokenError Bytes). x.1) (sym o ∙ h)) in
          let same_world : later.0 ≡ w' =
            ap (λ (x : W × Result TokenError Bytes). x.0) (sym o ∙ h) in
          (
            ek,
            rest,
            w1,
            ap (λ x. (w1, x)) p,
            ap (λ x. (x, later.1)) same_world ∙ ap (λ x. (w', x)) q,
            cc,
          ))
  ]

  pub encode_with-ok :
      (mke : MultiKey W) (sc : BinaryEncoder W) (key d message : Bytes) (w w' : W)
      → encode_with v mke sc key d w ≡ (w', ok message)
      → (c frames : Bytes) × (w1 : W) × (sc.encode d w ≡ (w1, ok c))
        × (encode_keys v mke.keyholder key w1 ≡ (w', ok frames))
        × (frame v c ++ frames ≡ message)
  unfolding encode_with
  encode_with-ok mke sc key d message w w' h = elim (Result-cases ((sc.encode d w).1)) [
    | inr (e, p) ↦
        (let o : encode_with v mke sc key d w ≡ ((sc.encode d w).0, err e) =
            rw (p, encode_with) refl in
          let x : err e ≡ ok message = ap (λ (r : W × Result TokenError Bytes). r.1) (sym o ∙ h) in
          cc)
    | inl (c, p) ↦
        (let w1 = (sc.encode d w).0 in
          let later = encode_keys v mke.keyholder key w1 in
          let o : encode_with v mke sc key d w
              ≡ (later.0, later.1 >>= λ frames. ok (frame v c ++ frames)) =
            rw (p, encode_with) refl in
          let (frames, q, r) =
            >>=-ok later.1 (λ (frames : Bytes). ok (frame v c ++ frames)) message
              (ap (λ (x : W × Result TokenError Bytes). x.1) (sym o ∙ h)) in
          let same_world : later.0 ≡ w' =
            ap (λ (x : W × Result TokenError Bytes). x.0) (sym o ∙ h) in
          (
            c,
            frames,
            w1,
            ap (λ x. (w1, x)) p,
            ap (λ x. (x, later.1)) same_world ∙ ap (λ x. (w', x)) q,
            cc,
          ))
  ]

  pub multi_encode-ok :
      (mke : MultiKey W) (d message : Bytes) (w w' : W)
      → multi_encode v mke d w ≡ (w', ok message)
      → (sc : BinaryEncoder W) × (key : Bytes) × (w1 : W) × (mke.create w ≡ (w1, ok (sc, key)))
        × (encode_with v mke sc key d w1 ≡ (w', ok message))
  unfolding multi_encode
  multi_encode-ok mke d message w w' h = elim (Result-cases ((mke.create w).1)) [
    | inr (e, p) ↦
        (let o : multi_encode v mke d w ≡ ((mke.create w).0, err e) = rw (p, multi_encode) refl in
          let x : err e ≡ ok message = ap (λ (r : W × Result TokenError Bytes). r.1) (sym o ∙ h) in
          cc)
    | inl (made, p) ↦
        (let w1 = (mke.create w).0 in
          let o : multi_encode v mke d w ≡ encode_with v mke made.0 made.1 d w1 =
            rw (p, multi_encode) refl in
          (made.0, made.1, w1, ap (λ x. (w1, x)) p, sym o ∙ h))
  ]
