-- ===== src/Flextape/Service/Runs.antt =====
-- Runs of flextape/service/service.go, from start-up on.
use enkit.Common.{
  ℕ, ◌+◌, ◌<◌, ◌≡◌, refl, String, some, List, [], ◌∷◌, length, str_dec, arith, if_pos, if_neg,
}
use mathlib.Core.Path.{subst}
use enkit.Common.Words.{u32_mod}
use enkit.Flextape.Queue.{Queue}
use enkit.Flextape.Queue
use enkit.Flextape.Queue.Numbering.{IsNumbered-intro}
use enkit.Flextape.Prioritizer.Counts.{HasCounts}
use enkit.Flextape.License.{License, Allocations, lookup}
use enkit.Flextape.License
use enkit.Flextape.License.Books.{Books}
use enkit.Flextape.Messages.{
  LicenseConfig, ServerConfig, PrioritizerConfig, fifo_config, even_owners_config, unset,
}
use enkit.Flextape.Prioritizer.{new_even_owners}
use enkit.Flextape.Service.{
  new, new_license, licenses_from, prioritizer_of, Service, janitor, refresh, release,
  finish_adoption, Event, allocates, refreshes, releases, ticks, adopted, step, run,
  format_license_type,
}
use enkit.Flextape.Service.Books.{ServiceBooks, ServiceBooks-mono, Every}
use enkit.Flextape.Service.Calls.{
  Proper, allocate_call-Books, refresh_call-Books, release_call-Books, janitor-Books,
}

later : (n : ℕ) (s : Service) → ServiceBooks n s → ServiceBooks (n + 1 + 1) s
later n s all = ServiceBooks-mono (n + 1) s (ServiceBooks-mono n s all)

-- Every event keeps the books of every license.
pub step-Books :
    (n : ℕ) (s : Service) (e : Event)
    → n + 3 < u32_mod
    → Proper s e
    → ServiceBooks n s
    → ServiceBooks (n + 1 + 1) (step s e)
unfolding step finish_adoption
step-Books n s (allocates msg generated clock) room p all =
    allocate_call-Books n s msg generated clock room p all
step-Books n s (refreshes msg clock) room p all =
    later n (refresh s msg clock).0 (refresh_call-Books n s msg clock p all)
step-Books n s (releases id) room p all = later n (release s id).0 (release_call-Books n s id all)
step-Books n s (ticks now_allocations now_queue) room p all =
    later n (janitor now_allocations now_queue s) (janitor-Books n now_allocations now_queue s all)
step-Books n s adopted room p all = later n s all

-- Properness of each event of a run, in the state that it meets.
abbrev pub ProperRun : Service → List Event → Type 0
ProperRun s [] = Unit {0}
ProperRun s (e ∷ es) = Proper s e × ProperRun (step s e) es

run-Books :
    (n : ℕ) (s : Service) (es : List Event)
    → n + (length es + length es) + 3 < u32_mod
    → ProperRun s es
    → ServiceBooks n s
    → ServiceBooks (n + (length es + length es)) (run s es)
unfolding run
run-Books n s [] room p all = subst (λ k. ServiceBooks k s) (omega arith) all
run-Books n s (e ∷ es) room p all =
    subst (λ k. ServiceBooks k (run (step s e) es)) (omega arith)
      (run-Books (n + 1 + 1) (step s e) es (omega arith) p.1
        (step-Books n s e (omega arith) p.0 all))

-- Quantities are uint32 values.
abbrev pub AreSmall : List LicenseConfig → Type 0
AreSmall [] = Unit {0}
AreSmall (c ∷ cs) = (c.quantity < u32_mod) × AreSmall cs

head_id_empty : Queue.head_id [] ≡ 1
unfolding Queue.head_id
head_id_empty = refl

new_counts : (c : PrioritizerConfig) → HasCounts (prioritizer_of c) (λ o. 0) (λ o. 0)
unfolding prioritizer_of new_even_owners
new_counts fifo_config = tt
new_counts even_owners_config = record {
  allocated = λ o. refl;
  dequeued_small = λ o. omega arith;
  enqueued = λ o. refl;
}
new_counts unset = tt

pub new_license-Books : (c : LicenseConfig) → c.quantity < u32_mod → Books 0 (new_license c)
unfolding new_license
new_license-Books c small = record {
  keyed = tt;
  unique = λ id. omega arith;
  numbered = IsNumbered-intro 1 [] (omega arith) (omega arith) tt;
  short = omega (arith, head_id_empty);
  capacity = omega arith;
  small = small;
  counted = new_counts c.policy;
}

Every-insert :
    (P : License → Type 0) (name : String) (l : License) (m : List (String × License))
    → P l
    → Every P m
    → Every P (License.insert name l m)
unfolding License.insert
Every-insert P name l [] h all = (h, tt)
Every-insert P name l ((k, v) ∷ m) h all = elim (str_dec k name) [
  | yes p ↦ rw (if_pos _ p) (h, all.1)
  | no p ↦ rw (if_neg _ p) (all.0, Every-insert P name l m h all.1)
]

licenses_from-Books :
    (m : List (String × License)) (cs : List LicenseConfig)
    → AreSmall cs
    → Every (Books 0) m
    → Every (Books 0) (licenses_from m cs)
unfolding licenses_from
licenses_from-Books m [] small all = all
licenses_from-Books m (c ∷ cs) small all =
    licenses_from-Books (License.insert (format_license_type c.spec) (new_license c) m) cs small.1
      (Every-insert (Books 0) _ (new_license c) m (new_license-Books c small.0) all)

new_licenses :
    (c : ServerConfig) (configs : List LicenseConfig) (s : Service)
    → new (some c) configs ≡ some s
    → licenses_from [] configs ≡ s.licenses
unfolding new
new_licenses c configs s e = ground arith

-- From start-up on, through any calls, ticks and the end of the adoption period, each license is
-- within its capacity, numbers its queue without gaps, lists no id twice, and its prioritizer
-- counts what the license holds.
pub run-new-Books :
    (c : ServerConfig) (configs : List LicenseConfig) (s : Service) (es : List Event)
    → new (some c) configs ≡ some s
    → AreSmall configs
    → length es + length es + 3 < u32_mod
    → ProperRun s es
    → ServiceBooks (length es + length es) (run s es)
unfolding new
run-new-Books c configs s es e small room p =
    let start : ServiceBooks 0 s =
      subst (Every (Books 0)) (new_licenses c configs s e)
        (licenses_from-Books [] configs small tt) in
    subst (λ k. ServiceBooks k (run s es)) (omega arith) (run-Books 0 s es (omega arith) p start)
