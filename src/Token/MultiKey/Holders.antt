-- ===== src/Token/MultiKey/Holders.antt =====
-- How the loops of Decode end.
use enkit.Common.{
  ℕ, zero, suc, ◌<◌, ◌≤◌, ◌≡◌, ◌∙◌, ◌⊎◌, inl, inr, refl, ap, sym, List, [], ◌∷◌, length, Option,
  none, some, arith,
}
use enkit.Common.Results.{Result, ok, err}
use enkit.Token.{
  Bytes, Context, Stage, key_not_decoded, KeyFailure, TokenError, Decoded, BinaryEncoder, Gives,
  Varints, IsVarints,
}
use enkit.Token.MultiKey.{MultiKey, split_frame, encode_keys, try_holder, try_holders, try_keys}
use mathlib.Core.List.{Memᴰ}
use mathlib.Core.List.Memᴰ.{head, tail, cases_cons}
use mathlib.Core.Path.{subst}
use enkit.Token.MultiKey.Frames.{split_frame-frame, frame_fits}
use enkit.Token.MultiKey.Encoding.{encode_keys-ok}

-- The holder fails to decode the key.
abbrev pub Fails {ℓ} : {W : Type ℓ} → BinaryEncoder W → W → Bytes → Type 0
Fails h wd ek =
    (ctx : Context)
    → (ctx' : Context) × (o : Option Bytes) × (e : TokenError) × (h.decode wd ctx ek
        ≡ (ctx', o, some e))

-- From what a key holder of the message made of a key, a holder gets the key, or fails.
abbrev pub IsHonest {ℓ} : {W : Type ℓ} → W → BinaryEncoder W → BinaryEncoder W → Type ℓ
IsHonest {W} wd kh h =
    (w w' : W) (key ek : Bytes) → kh.encode key w ≡ (w', ok ek) → Gives h wd ek key ⊎ Fails h wd ek

abbrev pub IsOpening {ℓ} : {W : Type ℓ} → W → BinaryEncoder W → BinaryEncoder W → Type ℓ
IsOpening {W} wd kh h =
    (w w' : W) (key ek : Bytes) → kh.encode key w ≡ (w', ok ek) → Gives h wd ek key

-- The encoder gives no empty result.
abbrev pub IsFilled {ℓ} : {W : Type ℓ} → BinaryEncoder W → Type ℓ
IsFilled {W} enc = (w w' : W) (d e : Bytes) → enc.encode d w ≡ (w', ok e) → 0 < length e

-- An encoder with a new key can be made again from the key, to decode.
abbrev pub IsFactory {ℓ} : {W : Type ℓ} → W → MultiKey W → MultiKey W → Type ℓ
IsFactory {W} wd mke dec =
    (w w' : W) (sc : BinaryEncoder W) (key : Bytes)
    → mke.create w ≡ (w', ok (sc, key))
    → IsFilled sc
      × ((sc' : BinaryEncoder W) × (dec.create_with wd (some key) ≡ ok sc') × IsOpening wd sc sc')

module _ {ℓ} {W : Type ℓ} (v : Varints) (is_v : IsVarints v) (dec : MultiKey W) (wd : W) where
  module _ (sc : BinaryEncoder W) (key c d : Bytes) (made : dec.create_with wd (some key) ≡ ok sc)
      (opened : Gives sc wd c d) where
    try_holder-Gives :
        (h : BinaryEncoder W) (ek : Bytes) (ctx : Context)
        → Gives h wd ek key
        → (ctx' : Context) × (try_holder v dec wd c ek h ctx ≡ (ctx', ok (some d)))
    unfolding try_holder
    try_holder-Gives h ek ctx gives =
        let (ctx1, p) = gives ctx in
        let (ctx2, q) = opened ctx1 in
        (
          ctx2,
          rw
              (
                ap (λ (r : Decoded). r.2) p,
                try_holder,
                ap (λ (r : Decoded). r.1) p,
                made,
                ap (λ (r : Decoded). r.0) p,
                ap (λ (r : Decoded). r.2) q,
                ap (λ (r : Decoded). r.0) p,
                ap (λ (r : Decoded). r.1) q,
                ap (λ (r : Decoded). r.0) q,
              )
              refl,
        )

    try_holder-Fails :
        (h : BinaryEncoder W) (ek : Bytes) (ctx : Context)
        → Fails h wd ek
        → (ctx' : Context) × (try_holder v dec wd c ek h ctx ≡ (ctx', err key_not_decoded))
    unfolding try_holder
    try_holder-Fails h ek ctx fails =
        let (ctx1, o, e, p) = fails ctx in
        (ctx1, rw (ap (λ (r : Decoded). r.2) p, try_holder, ap (λ (r : Decoded). r.0) p) refl)

    abbrev Tried : Type 0
    Tried = Context × Result Stage (Option Bytes)

    abbrev Held : Type 0
    Held = Context × Result (List KeyFailure) (Option Bytes)

    -- The round ends with the data, or all holders failed.
    abbrev Ends : Context × Result (List KeyFailure) (Option Bytes) → Type 0
    Ends out =
        ((ctx' : Context) × (out ≡ (ctx', ok (some d))))
        ⊎ ((ctx' : Context) × (es : List KeyFailure) × (out ≡ (ctx', err es)))

    module _ (ek : Bytes) (keyid : ℕ) where
      try_holders-Ends :
          (hs : List (BinaryEncoder W)) (cx : ℕ) (ctx : Context) (errors : List KeyFailure)
          → ((h : BinaryEncoder W) → Memᴰ h hs → Gives h wd ek key ⊎ Fails h wd ek)
          → Ends (try_holders v dec wd c ek keyid hs cx ctx errors)
      unfolding try_holders
      try_holders-Ends [] cx ctx errors honest = inr (ctx, errors, refl)
      try_holders-Ends (h ∷ hs) cx ctx errors honest = elim (honest h (head refl)) [
        | inl g ↦
            (let (ctx1, p) = try_holder-Gives h ek ctx g in
              inl
                (ctx1, rw (ap (λ (r : Tried). r.1) p, try_holders, ap (λ (r : Tried). r.0) p) refl))
        | inr f ↦
            (let (ctx1, p) = try_holder-Fails h ek ctx f in
              rw (ap (λ (r : Tried). r.1) p, try_holders, ap (λ (r : Tried). r.0) p)
                (try_holders-Ends hs (suc cx) ctx1 _ (λ k m. honest k (tail m))))
      ]

      try_holders-Gives :
          (hs : List (BinaryEncoder W)) (cx : ℕ) (ctx : Context) (errors : List KeyFailure)
          (g : BinaryEncoder W)
          → ((h : BinaryEncoder W) → Memᴰ h hs → Gives h wd ek key ⊎ Fails h wd ek)
          → Memᴰ g hs
          → Gives g wd ek key
          → (ctx' : Context) × (try_holders v dec wd c ek keyid hs cx ctx errors
              ≡ (ctx', ok (some d)))
      unfolding try_holders
      try_holders-Gives [] cx ctx errors g honest m gives = absurd (elim m [ ])
      try_holders-Gives (h ∷ hs) cx ctx errors g honest (head e) gives =
          let (ctx1, p) = try_holder-Gives h ek ctx (subst (λ x. Gives x wd ek key) e gives) in
          (ctx1, rw (ap (λ (r : Tried). r.1) p, try_holders, ap (λ (r : Tried). r.0) p) refl)
      try_holders-Gives (h ∷ hs) cx ctx errors g honest (tail m) gives =
          elim (honest h (head refl)) [
            | inl o ↦
                (let (ctx1, p) = try_holder-Gives h ek ctx o in
                  (
                    ctx1,
                    rw (ap (λ (r : Tried). r.1) p, try_holders, ap (λ (r : Tried). r.0) p) refl,
                  ))
            | inr f ↦
                (let (ctx1, p) = try_holder-Fails h ek ctx f in
                  rw (ap (λ (r : Tried). r.1) p, try_holders, ap (λ (r : Tried). r.0) p)
                    (try_holders-Gives hs (suc cx) ctx1 _ g (λ k x. honest k (tail x)) m gives))
          ]

    -- A key of the message is tried by all holders.
    try_keys-frame :
        (buffer ek rest : Bytes) (k keyid : ℕ) (ctx : Context) (errors : List KeyFailure)
        → split_frame v buffer ≡ some (ek, rest)
        → length rest < length buffer
        → length buffer ≤ k
        → (k' : ℕ) × (length rest ≤ k')
          × ((ctx' : Context)
              → try_holders v dec wd c ek keyid dec.keyholder 0 ctx errors ≡ (ctx', ok (some d))
              → try_keys v dec k wd c keyid buffer ctx errors ≡ (ctx', some d, none))
          × ((ctx' : Context) (es : List KeyFailure)
              → try_holders v dec wd c ek keyid dec.keyholder 0 ctx errors ≡ (ctx', err es)
              → try_keys v dec k wd c keyid buffer ctx errors
                ≡ try_keys v dec k' wd c (suc keyid) rest ctx' es)
    unfolding try_keys
    try_keys-frame [] ek rest k keyid ctx errors s l enough = absurd (omega arith)
    try_keys-frame (b ∷ bs) ek rest zero keyid ctx errors s l enough = absurd (omega arith)
    try_keys-frame (b ∷ bs) ek rest (suc k) keyid ctx errors s l enough = (
      k,
      omega arith,
      λ ctx' h. rw (s, try_keys, ap (λ (r : Held). r.1) h, ap (λ (r : Held). r.0) h) refl,
      λ ctx' es h. rw (s, try_keys, ap (λ (r : Held). r.1) h, ap (λ (r : Held). r.0) h) refl,
    )

    pub try_keys-Gives :
        (khs : List (BinaryEncoder W)) (kh h : BinaryEncoder W) (w w' : W) (frames : Bytes)
        (k keyid : ℕ) (ctx : Context) (errors : List KeyFailure)
        → encode_keys v khs key w ≡ (w', ok frames)
        → ((p q : BinaryEncoder W) → Memᴰ p khs → Memᴰ q dec.keyholder → IsHonest wd p q)
        → ((p : BinaryEncoder W) → Memᴰ p khs → IsFilled p)
        → length frames ≤ 2147483647
        → Memᴰ kh khs
        → Memᴰ h dec.keyholder
        → IsOpening wd kh h
        → length frames ≤ k
        → (ctx' : Context) × (try_keys v dec k wd c keyid frames ctx errors ≡ (ctx', some d, none))
    try_keys-Gives [] kh h w w' frames k keyid ctx errors e honest filled small m n opens enough =
        absurd (elim m [ ])
    try_keys-Gives (p ∷ ps) kh h w w' frames k keyid ctx errors e honest filled small m n opens
          enough =
        let (ek, rest, w1, here, there, at) = encode_keys-ok v key p ps w w' frames e in
        let (framed, longer) =
          frame_fits v is_v ek rest frames at (filled p (head refl) w w1 key ek here) small in
        let split = ap (split_frame v) (sym at) ∙ split_frame-frame v is_v ek rest framed in
        let (k', enough', good, bad) =
          try_keys-frame frames ek rest k keyid ctx errors split longer enough in
        let tried = λ (q : BinaryEncoder W) (x : Memᴰ q dec.keyholder).
          honest p q (head refl) x w w1 key ek here in
        elim (cases_cons m) [
          | inl is_p ↦
              (let gives =
                  subst
                    (λ (x : BinaryEncoder W).
                      (w w' : W) (key ek : Bytes)
                      → x.encode key w ≡ (w', ok ek)
                      → Gives h wd ek key)
                    is_p opens w w1 key ek here in
                let (ctx', held) =
                  try_holders-Gives ek keyid dec.keyholder 0 ctx errors h tried n gives in
                (ctx', good ctx' held))
          | inr m' ↦ elim (try_holders-Ends ek keyid dec.keyholder 0 ctx errors tried) [
            | inl (ctx', held) ↦ (ctx', good ctx' held)
            | inr (ctx', es, held) ↦
                (let (ctx2, r) =
                    try_keys-Gives ps kh h w1 w' rest k' (suc keyid) ctx' es there
                      (λ p q x. honest p q (tail x)) (λ p x. filled p (tail x)) (omega arith) m' n
                      opens enough' in
                  (ctx2, bad ctx' es held ∙ r))
          ]
        ]
