-- ===== src/Token/Time/Laws.antt =====
-- When data with a time on it is taken for expired.
use enkit.Common.{
  ℕ, ◌+◌, ◌*◌, ◌/◌, ◌<◌, ◌≤◌, ◌≡◌, ◌∙◌, refl, ap, sym, Bool, false, List, [], ◌∷◌, ◌++◌, length,
  drop, none, some, if◌then◌else◌, ltb, ◌==◌, arith,
}
use enkit.Common.Results.{Result, ok}
use enkit.Token.{
  Bytes, issued_time_key, max_time_key, expires_time_key, Context, TokenError, expired, Varints,
  IsVarints, IsEncoder,
}
use enkit.Token.Time.{
  TimeFields, nanos_per_second, unix, from_unix, is_before, not_positive, time_encode, time_decode,
  time_encoder, expire_encode, expire_decode,
}
use mathlib.Core.Path.{subst}

drop-append {ℓ} : {A : Type ℓ} (xs ys : List A) → drop (length xs) (xs ++ ys) ≡ ys
drop-append [] ys = refl
drop-append (x ∷ xs) ys = drop-append xs ys

positive : (n : ℕ) → nanos_per_second ≤ n → (n / nanos_per_second == 0) ≡ false
positive n h = ground arith

module _ {ℓ} {W : Type ℓ} (v : Varints) (is_v : IsVarints v) (t : TimeFields W) where
  -- Data that was encoded by a clock between 1970 and 2262 is decoded with the second of that clock
  -- as its issue time, also if it is expired, and it is expired just if the validity has passed
  -- since that second began.
  pub time_decode-time_encode :
      (content : Bytes) (w wd : W) (ctx : Context)
      → nanos_per_second ≤ t.now w
      → t.now w < 9223372036854775808
      → (e : Bytes) × (time_encode v t content w ≡ (w, ok e))
        × (time_decode v t wd ctx e ≡ (
          (max_time_key, from_unix (unix (t.now w)) t.validity)
              ∷ (issued_time_key, from_unix (unix (t.now w)) 0)
              ∷ ctx,
          some content,
          (if ltb (t.now w / nanos_per_second * nanos_per_second + t.validity) (t.now wd)
              then some expired
              else none),
        ))
  unfolding time_encode time_decode not_positive is_before
  time_decode-time_encode content w wd ctx started h =
      let p = is_v.varint-put_varint (t.now w / nanos_per_second) content (omega arith) in
      (
        v.put_varint (unix (t.now w)) ++ content,
        refl,
        rw
            (
              p,
              time_decode,
              positive (t.now w) started,
              drop-append (v.put_varint (unix (t.now w))) content,
            )
            refl,
      )

  -- Data that was encoded by a clock between 1970 and 2262 carries the second in which it expires,
  -- and is expired just after that second began.
  expire_decode-expire_encode :
      (content : Bytes) (w wd : W) (ctx : Context)
      → nanos_per_second ≤ t.now w
      → t.now w + t.validity < 9223372036854775808
      → (e : Bytes) × (expire_encode v t content w ≡ (w, ok e))
        × (expire_decode v t wd ctx e ≡ (
          (expires_time_key, from_unix (unix (t.now w + t.validity)) 0) ∷ ctx,
          some content,
          (if ltb ((t.now w + t.validity) / nanos_per_second * nanos_per_second) (t.now wd)
              then some expired
              else none),
        ))
  unfolding expire_encode expire_decode not_positive is_before
  expire_decode-expire_encode content w wd ctx started h =
      let p =
        is_v.varint-put_varint ((t.now w + t.validity) / nanos_per_second) content (omega arith) in
      let z : (t.now w + t.validity) / nanos_per_second * nanos_per_second + 0
          ≡ (t.now w + t.validity) / nanos_per_second * nanos_per_second =
        omega arith in
      (
        v.put_varint (unix (t.now w + t.validity)) ++ content,
        refl,
        rw
            (
              p,
              expire_decode,
              positive (t.now w + t.validity) (omega arith),
              drop-append (v.put_varint (unix (t.now w + t.validity))) content,
              z,
            )
            refl,
      )

  -- The worlds in which the data is not expired.
  abbrev pub IsFresh : W → W → Type 0
  IsFresh w wd =
      (nanos_per_second ≤ t.now w)
      × (t.now w < 9223372036854775808)
      × (t.now wd ≤ t.now w / nanos_per_second * nanos_per_second + t.validity)

  pub time_encoder-IsEncoder : IsEncoder IsFresh (time_encoder v t)
  unfolding time_encode
  time_encoder-IsEncoder = record {
    decode-encode = λ d e w w' wd h (started, bound, fresh) ctx.
        let (e', at, result) = time_decode-time_encode d w wd ctx started bound in
        let f : ltb (t.now w / nanos_per_second * nanos_per_second + t.validity) (t.now wd)
            ≡ false =
          ground arith in
        let x : ok e' ≡ ok e = ap (λ (p : W × Result TokenError Bytes). p.1) (sym at ∙ h) in
        let y : e' ≡ e = cc in
        let ctx' =
          (max_time_key, from_unix (unix (t.now w)) t.validity)
          ∷ (issued_time_key, from_unix (unix (t.now w)) 0)
          ∷ ctx in
        (
          ctx',
          ap (time_decode v t wd ctx) (sym y)
              ∙ result
              ∙ ap (λ (b : Bool). (ctx', some d, (if b then some expired else none))) f,
        );
    ready-encode = λ d e w w' wd h r.
        subst (λ x. IsFresh x wd) (ap (λ (p : W × Result TokenError Bytes). p.0) h) r;
  }
