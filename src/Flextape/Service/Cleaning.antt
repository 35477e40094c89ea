-- ===== src/Flextape/Service/Cleaning.antt =====
-- What the janitor and Release of flextape/service/service.go achieve.
use enkit.Common.{
  ℕ, ◌+◌, ◌≡◌, ◌≢◌, refl, ◌⊎◌, String, List, [], ◌∷◌, length, ite, str_dec, arith, ◌==◌, sym,
  if◌then◌else◌,
}
use mathlib.Core.Path.{subst}
use enkit.Flextape.License.{License}
use enkit.Flextape.License.Books.{Books, uses}
use enkit.Flextape.License.Keeping.{expire_allocations-Books, expire_queued-Books}
use enkit.Flextape.License.Promotion.{promote-Books}
use enkit.Flextape.License.Expiry.{forget-uses, Forgot, forget-Forgot}
use enkit.Flextape.Messages.{ok, err, failed_precondition}
use enkit.Flextape.Service.{Service, running, janitor, forget_all, release}
use enkit.Flextape.Service.Books.{Every, Every-map, ServiceBooks}

-- A license that is handed out fully, or that nobody waits for.
abbrev pub IsBusy : License → Type 0
IsBusy l = (length l.allocations ≡ l.total_available) ⊎ (l.queue ≡ [])

-- After a tick of the janitor of a running service whose books balance (in particular, no id stands
-- in a license twice), each license is handed out fully or has an empty queue.
pub janitor-IsBusy :
    (n now_allocations now_queue : ℕ) (s : Service)
    → s.current_state ≡ running
    → ServiceBooks n s
    → Every IsBusy (janitor now_allocations now_queue s).licenses
unfolding janitor
janitor-IsBusy n now_allocations now_queue s t all =
    rw (t, janitor)
      (Every-map (Books n) IsBusy _ s.licenses
        (λ l b.
          (promote-Books n _ (expire_queued-Books _ n _ (expire_allocations-Books _ n l b))).2)
        all)

-- How often an id stands in all licenses together.
abbrev pub all_uses : String → List (String × License) → ℕ
all_uses id [] = 0
all_uses id ((k, l) ∷ m) = uses id l + all_uses id m

forget_all-uses :
    (id : String) (n : ℕ) (m : List (String × License))
    → Every (Books n) m
    → ((forget_all id m).1 ≡ all_uses id m)
      × ((j : String) → all_uses j (forget_all id m).0 ≡ ite (str_dec id j) 0 (all_uses j m))
unfolding forget_all
forget_all-uses id n [] all = (refl, λ j. ground arith)
forget_all-uses id n ((k, l) ∷ m) all =
    let (count, rest) = forget-uses id n l all.0 in
    let (counts, others) = forget_all-uses id n m all.1 in
    (omega arith, λ j. ground (arith, rest j, others j))

-- Each license without the id, under its name.
abbrev pub AllForgot : String → List (String × License) → List (String × License) → Type 0
AllForgot id [] [] = Unit {0}
AllForgot id [] ((j, l') ∷ m') = ⊥
AllForgot id ((k, l) ∷ m) [] = ⊥
AllForgot id ((k, l) ∷ m) ((j, l') ∷ m') = (j ≡ k) × (Forgot id l l' × AllForgot id m m')

forget_all-AllForgot :
    (id : String) (m : List (String × License)) → AllForgot id m (forget_all id m).0
unfolding forget_all
forget_all-AllForgot id [] = tt
forget_all-AllForgot id ((k, l) ∷ m) = (refl, (forget-Forgot id l, forget_all-AllForgot id m))

-- Release with an id, in a service whose books balance, succeeds exactly if the id stands in some
-- license, allocated or queued. Either way each license keeps just the allocations and the queued
-- invocations of other ids, as they are and in their order, but for their QueueIDs.
pub release-uses :
    (n : ℕ) (s : Service) (id : String)
    → id ≢ ""
    → ServiceBooks n s
    → ((release s id).1 ≡ (if all_uses id s.licenses == 0 then err failed_precondition else ok tt))
      × AllForgot id s.licenses (release s id).0.licenses
unfolding release
release-uses n s id h all =
    let (count, rest) = forget_all-uses id n s.licenses all in
    let left : (release s id).0.licenses ≡ (forget_all id s.licenses).0 = ground arith in
    (
      ground (arith, count),
      subst (AllForgot id s.licenses) (sym left) (forget_all-AllForgot id s.licenses),
    )
