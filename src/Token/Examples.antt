-- ===== src/Token/Examples.antt =====
-- Runs of the token model, and its theorems at concrete inputs.
use enkit.Common.{
  ℕ, suc, ◌<◌, ◌≡◌, ◌↔◌, ◌∙◌, inl, inr, refl, ap, sym, true, List, [], ◌∷◌, ◌++◌, length, drop,
  Option, none, some, if◌then◌else◌, ◌==◌, arith, Bool-cases,
}
use enkit.Common.Results.{Result, ok, err}
use enkit.Token.{
  Bytes, ℤ, pos, negsuc, max_time_key, issued_time_key, Context, TokenError, other, expired,
  Decoded, BinaryEncoder, Gives, IsEncoder, Varints, IsVarints,
}
use enkit.Token.Chain.{chain_decode, chained_encoder}
use enkit.Token.Chain.Laws.{Passed, chain_decode-Passed, chained_encoder-IsEncoder}
use enkit.Token.Time.{TimeFields, from_unix, unix, time_encode, time_decode, time_encoder}
use enkit.Token.Time.Laws.{IsFresh, time_encoder-IsEncoder, time_decode-time_encode}
use enkit.Token.MultiKey.{MultiKey, frame, encode_keys, encode_with, multi_encode, multi_decode}
use enkit.Token.MultiKey.Holders.{IsHonest, IsFilled, IsFactory, IsOpening}
use enkit.Token.MultiKey.Roundtrip.{multi_decode-multi_encode}
use enkit.Token.Associated.{
  AssociatedEncoder, Encoders, plain_encoder, binding_encoder, chained, end, link, supports,
  is_binding, unless_failed, link_encode,
}
use enkit.Token.Associated.Laws.{chained-supports}
use mathlib.Core.List.{reverse, Memᴰ}
use mathlib.Core.List.Memᴰ.{head, tail}
use mathlib.Core.Path.{subst}

-- A number as one digit, with its sign before it if it may have one.
abbrev read_digit : Bytes → Option (ℕ × ℕ)
read_digit [] = none
read_digit (n ∷ rest) = some (n, 1)

abbrev signed : ℤ → Bytes
signed (pos n) = 0 ∷ n ∷ []
signed (negsuc n) = 1 ∷ n ∷ []

abbrev read_signed : Bytes → Option (ℤ × ℕ)
read_signed [] = none
read_signed (s ∷ []) = none
read_signed (s ∷ n ∷ rest) = some ((if s == 0 then pos n else negsuc n), 2)

abbrev digits : Varints
digits = record {
  put_uvarint = λ n. n ∷ [];
  uvarint = read_digit;
  put_varint = signed;
  varint = read_signed;
}

digits-IsVarints : IsVarints digits
digits-IsVarints = record {
  uvarint-put_uvarint = λ n rest h. refl;
  varint-put_varint = λ n rest h. refl;
}

abbrev unlock : ℕ → Context → Bytes → Decoded
unlock k ctx [] = (ctx, none, some (other 0))
unlock k ctx (c ∷ content) =
    if c == k then (ctx, some content, none) else (ctx, none, some (other k))

-- An encoder that puts its key in front; the world is a clock.
abbrev lock : ℕ → BinaryEncoder ℕ
lock k = record {
  encode = λ content w. (w, ok (k ∷ content));
  decode = λ wd ctx content. unlock k ctx content;
}

unlock-same :
    (k : ℕ) (ctx : Context) (content : Bytes)
    → unlock k ctx (k ∷ content) ≡ (ctx, some content, none)
unlock-same k ctx content = let e : (k == k) ≡ true = ground arith in rw e refl

lock-ok :
    (k : ℕ) (d e : Bytes) (w w' : ℕ) → (lock k).encode d w ≡ (w', ok e) → (w ≡ w') × (k ∷ d ≡ e)
lock-ok k d e w w' h =
    let x : ok (k ∷ d) ≡ ok e = ap (λ (r : ℕ × Result TokenError Bytes). r.1) h in
    (ap (λ (r : ℕ × Result TokenError Bytes). r.0) h, cc)

lock-Gives :
    (k : ℕ) (d e : Bytes) (w w' wd : ℕ) → (lock k).encode d w ≡ (w', ok e) → Gives (lock k) wd e d
lock-Gives k d e w w' wd h ctx =
    (ctx, ap (unlock k ctx) (sym (lock-ok k d e w w' h).1) ∙ unlock-same k ctx d)

-- Five seconds.
abbrev clock : TimeFields ℕ
clock = record { validity = 5000000000; now = λ w. w }

lock-IsEncoder : (k : ℕ) → IsEncoder (IsFresh digits digits-IsVarints clock) (lock k)
lock-IsEncoder k = record {
  decode-encode = λ d e w w' wd h r. lock-Gives k d e w w' wd h;
  ready-encode = λ d e w w' wd h r.
      subst (λ x. IsFresh digits digits-IsVarints clock x wd) (lock-ok k d e w w' h).0 r;
}

abbrev two_encoders : List (BinaryEncoder ℕ)
two_encoders = time_encoder digits clock ∷ lock 9 ∷ []

chained_encoder-IsEncoder_example :
    IsEncoder (IsFresh digits digits-IsVarints clock) (chained_encoder two_encoders)
chained_encoder-IsEncoder_example =
    chained_encoder-IsEncoder (IsFresh digits digits-IsVarints clock) two_encoders
      (time_encoder-IsEncoder digits digits-IsVarints clock, (lock-IsEncoder 9, tt))

chain_decode-Passed_example :
    (chain_decode two_encoders 2000000000 [] (9 ∷ 0 ∷ 1 ∷ 42 ∷ []) ≡ (
      (max_time_key, from_unix (pos 1) 5000000000) ∷ (issued_time_key, from_unix (pos 1) 0) ∷ [],
      some (42 ∷ []),
      none,
    ))
    ↔ Passed
        (reverse two_encoders)
        2000000000
        []
        (some (9 ∷ 0 ∷ 1 ∷ 42 ∷ []))
        ((max_time_key, from_unix (pos 1) 5000000000) ∷ (issued_time_key, from_unix (pos 1) 0) ∷ [])
        (some (42 ∷ []))
chain_decode-Passed_example =
    chain_decode-Passed two_encoders 2000000000 []
      ((max_time_key, from_unix (pos 1) 5000000000) ∷ (issued_time_key, from_unix (pos 1) 0) ∷ [])
      (9 ∷ 0 ∷ 1 ∷ 42 ∷ []) (some (42 ∷ []))

time_decode-time_encode_example :
    (e : Bytes) × (time_encode digits clock (42 ∷ []) 1500000000 ≡ (1500000000, ok e))
    × (time_decode digits clock 6200000000 [] e ≡ (
      (max_time_key, from_unix (unix 1500000000) 5000000000)
          ∷ (issued_time_key, from_unix (unix 1500000000) 0)
          ∷ [],
      some (42 ∷ []),
      some expired,
    ))
time_decode-time_encode_example =
    time_decode-time_encode digits digits-IsVarints clock (42 ∷ []) 1500000000 6200000000 []
      (omega arith) (omega arith)

abbrev key_lock : Option Bytes → Result TokenError (BinaryEncoder ℕ)
key_lock none = err (other 2)
key_lock (some []) = err (other 3)
key_lock (some (k ∷ r)) = ok (lock k)

-- Messages for the holders 3 and 4; keys are numbers that are used once.
abbrev sender : MultiKey ℕ
sender = record {
  create = λ w. (suc w, ok (lock w, w ∷ []));
  create_with = λ wd key. key_lock key;
  keyholder = lock 3 ∷ lock 4 ∷ [];
}

-- The holders 5 and 4.
abbrev receiver : MultiKey ℕ
receiver = record sender { keyholder = lock 5 ∷ lock 4 ∷ [] }

lock-IsHonest : (p q wd : ℕ) → IsHonest wd (lock p) (lock q)
lock-IsHonest p q wd w w' key ek h =
    let (same_world, e) = lock-ok p key ek w w' h in
    elim (Bool-cases (p == q)) [
      | inl t ↦
          (let k : p ≡ q = ground arith in
            inl (subst (λ x. Gives (lock x) wd ek key) k (lock-Gives p key ek w w' wd h)))
      | inr t ↦ inr (λ ctx. (
        ctx,
        none,
        other q,
        ap (unlock q ctx) (sym e)
            ∙ ap (λ b. if b then (ctx, some key, none) else (ctx, none, some (other q))) t,
      ))
    ]

lock-IsFilled : (k : ℕ) → IsFilled (lock k)
lock-IsFilled k w w' d e h = subst (λ x. 0 < length x) (lock-ok k d e w w' h).1 (omega arith)

is_lock : (p : BinaryEncoder ℕ) (a b : ℕ) → Memᴰ p (lock a ∷ lock b ∷ []) → (k : ℕ) × (lock k ≡ p)
is_lock p a b (head e) = (a, sym e)
is_lock p a b (tail (head e)) = (b, sym e)
is_lock p a b (tail (tail m)) = absurd (elim m [ ])

sender-IsFactory : (wd : ℕ) → IsFactory wd sender receiver
sender-IsFactory wd w w' sc key h =
    let x : ok (lock w, w ∷ []) ≡ ok (sc, key) =
      ap (λ (r : ℕ × Result TokenError (BinaryEncoder ℕ × Bytes)). r.1) h in
    let y : (lock w, w ∷ []) ≡ (sc, key) =
      ap
        (λ (r : Result TokenError (BinaryEncoder ℕ × Bytes)). elim r [
          | ok p ↦ p
          | err e ↦ (lock w, w ∷ [])
        ])
        x in
    subst
      (λ (p : BinaryEncoder ℕ × Bytes).
        IsFilled p.0
        × ((sc' : BinaryEncoder ℕ) × (key_lock (some p.1) ≡ ok sc') × IsOpening wd p.0 sc'))
      y (lock-IsFilled w, (lock w, refl, λ v v' d e g. lock-Gives w d e v v' wd g))

abbrev message : Bytes
message = 2 ∷ 7 ∷ 42 ∷ 2 ∷ 3 ∷ 7 ∷ 2 ∷ 4 ∷ 7 ∷ []

sent : multi_encode digits sender (42 ∷ []) 7 ≡ (8, ok message)
unfolding multi_encode encode_with encode_keys frame
sent = refl

multi_decode-multi_encode_example :
    (ctx' : Context) × (multi_decode digits receiver 9 [] message ≡ (ctx', some (42 ∷ []), none))
multi_decode-multi_encode_example =
    multi_decode-multi_encode digits digits-IsVarints receiver 9 sender (42 ∷ []) message 7 8
      (lock 4) (lock 4) (sender-IsFactory 9)
      (λ p m. let (k, e) = is_lock p 3 4 m in subst IsFilled e (lock-IsFilled k))
      (λ p q m n.
        let (j, e) = is_lock p 3 4 m in
        let (k, f) = is_lock q 5 4 n in
        subst (λ x. IsHonest 9 x q) e (subst (λ x. IsHonest 9 (lock j) x) f (lock-IsHonest j k 9)))
      (tail (head refl)) (tail (head refl)) (λ w w' key ek h. lock-Gives 4 key ek w w' 9 h) sent
      (omega arith) []

-- An encoder that puts the associated data in front, and does not look at it when it decodes.
abbrev binder : AssociatedEncoder ℕ
binder = record {
  encode_with = λ content aad w. (w, ok (aad ++ content));
  decode_with = λ wd ctx content aad. (ctx, some (drop (length aad) content), none);
}

abbrev binding_chain : Encoders ℕ
binding_chain =
    link (plain_encoder (lock 9)) (link (chained (link (binding_encoder binder) end)) end)

bound : link_encode (chained binding_chain) (42 ∷ []) (1 ∷ []) 5 ≡ (5, ok (1 ∷ 9 ∷ 42 ∷ []))
unfolding link_encode is_binding unless_failed
bound = refl

chained-supports_example : supports (chained binding_chain) ≡ true
chained-supports_example =
    chained-supports binding_chain (42 ∷ []) (1 ∷ []) (1 ∷ 9 ∷ 42 ∷ []) none 5 5 5 [] [] refl
      (inl bound)
