-- ===== src/Web/GoatCountdown.antt =====
-- What the popup of Web/GoatFarm.antt shows of the time to the restock, and when it asks again.
use faf_hackathon_challenge.Prelude.{
  ℕ, ◌+◌, ◌-◌, ◌*◌, ◌/◌, ◌≤◌, ◌<◌, Bool, true, ◌≡◌, refl, ◌↔◌, ◌∙◌, ap, sym, subst, Option, none,
  some, List, [], ◌∷◌, if◌then◌else◌, ltb, lt→ltb, arith,
}
use faf_hackathon_challenge.Prelude.Int.{ℤ, pos, negsuc}
use faf_hackathon_challenge.Web.GoatFarm.{
  GoatStockItem, GoatStock, Farm, seconds_passed, minus_or_zero, seconds_of, seconds_until_restock,
  FarmEvent, passes, toggles, ticks, loads, farm_step, farm_run, mount_farm,
}
use faf_hackathon_challenge.Web.GoatClock.{farm_run-IsSound, LoadedBefore}

minus_passed :
    (n now updated : ℕ)
    → updated ≤ now
    → minus_or_zero (pos n) (seconds_passed now updated) ≡ n - (now - updated) / 1000
unfolding seconds_passed
minus_passed n now updated h = ground arith

minus_ahead :
    (n now updated : ℕ)
    → now < updated
    → minus_or_zero (pos n) (seconds_passed now updated) ≡ n + (updated - now + 999) / 1000
unfolding seconds_passed
minus_ahead n now updated h = ground arith

announced_seconds :
    (u n : ℕ) (m p : ℤ)
    → 0 < u
    → m ≡ pos n
    → (if ltb 0 u then some (minus_or_zero m p) else none) ≡ some (minus_or_zero (pos n) p)
announced_seconds u n m p h e =
    ap (λ (b : Bool). if b then some (minus_or_zero m p) else none) (lt→ltb 0 u h)
    ∙ ap (λ k. some (minus_or_zero k p)) e

seconds_of_stock :
    (now n : ℕ) (o : Option GoatStock) (s : GoatStock)
    → o ≡ some s
    → 0 < s.data_updated_at
    → s.seconds_until_restock ≡ pos n
    → seconds_of now o ≡ some (minus_or_zero (pos n) (seconds_passed now s.data_updated_at))
seconds_of_stock now n none s at positive announced = cc
seconds_of_stock now n (some t) s at positive announced =
    subst
      (λ o. seconds_of now o ≡ some (minus_or_zero (pos n) (seconds_passed now s.data_updated_at)))
      (sym at)
      (announced_seconds s.data_updated_at n s.seconds_until_restock
        (seconds_passed now s.data_updated_at) positive announced)

pub zero_later :
    (a b updated : ℕ) (served : ℤ)
    → a ≤ b
    → minus_or_zero served (seconds_passed a updated) ≡ 0
    → minus_or_zero served (seconds_passed b updated) ≡ 0
unfolding seconds_passed
zero_later a b updated (pos n) h z = ground arith
zero_later a b updated (negsuc n) h z = ground arith

loaded_before :
    (f : Farm) (s : GoatStock)
    → f.stock_data ≡ some s
    → LoadedBefore f.clock f.stock_data
    → s.data_updated_at ≤ f.clock
loaded_before f s at before = subst (LoadedBefore f.clock) at before

ticked_from :
    (f : Farm) (s : GoatStock) (n : ℕ)
    → f.opened ≡ true
    → f.stock_data ≡ some s
    → 0 < s.data_updated_at
    → s.seconds_until_restock ≡ pos n
    → LoadedBefore f.clock f.stock_data
    → seconds_until_restock (farm_step ticks f) ≡ some (n - (f.clock - s.data_updated_at) / 1000)
unfolding farm_step seconds_until_restock
ticked_from f s n open_now at positive announced before =
    ap (λ (b : Bool). seconds_of (if b then f.clock else f.now_ms) f.stock_data) open_now
    ∙ seconds_of_stock f.clock n f.stock_data s at positive announced
    ∙ ap some (minus_passed n f.clock s.data_updated_at (loaded_before f s at before))

pub is_some→eq : {a b : ℕ} → some a ≡ some b → a ≡ b
is_some→eq h = ground arith

restocks :
    (n updated clock : ℕ)
    → updated ≤ clock
    → n - (clock - updated) / 1000 ≡ 0
    → updated + n * 1000 ≤ clock
restocks n updated clock h z = omega arith

-- At a tick of the open popup's interval, whatever has happened, the countdown is what the farm
-- announced less the whole seconds since then; it is at zero exactly when the time of the restock has
-- come.
pub ticked-seconds :
    (es : List FarmEvent) (now n : ℕ) (s : GoatStock)
    → (farm_run es (mount_farm now)).opened ≡ true
    → (farm_run es (mount_farm now)).stock_data ≡ some s
    → 0 < s.data_updated_at
    → s.seconds_until_restock ≡ pos n
    → let f = farm_run es (mount_farm now) in
      (seconds_until_restock (farm_step ticks f) ≡ some (n - (f.clock - s.data_updated_at) / 1000))
      × ((seconds_until_restock (farm_step ticks f) ≡ some 0)
          ↔ (s.data_updated_at + n * 1000 ≤ f.clock))
unfolding farm_step seconds_until_restock
ticked-seconds es now n s open_now at positive announced =
    let f = farm_run es (mount_farm now) in
    let shown = ticked_from f s n open_now at positive announced (farm_run-IsSound es now).past.1 in
    let before = loaded_before f s at (farm_run-IsSound es now).past.1 in
    (
      shown,
      (
        λ zero_now. restocks n s.data_updated_at f.clock before (is_some→eq (sym shown ∙ zero_now)),
        λ due. shown ∙ ap some (omega arith),
      ),
    )

late :
    (now wait load n : ℕ)
    → minus_or_zero (pos n) (seconds_passed now (now + wait + load))
      ≡ n + (wait + load + 999) / 1000
unfolding seconds_passed
late now wait load n = ground arith

-- The popup's time stands still while it is closed: opened after a while, it shows the seconds that the
-- farm announces and those of the while on top, until the first tick.
opened_late-seconds :
    (now wait load n : ℕ) (items : List GoatStockItem)
    → 0 < now + wait + load
    → seconds_until_restock
        (farm_run (passes wait ∷ toggles ∷ passes load ∷ loads items (pos n) ∷ []) (mount_farm now))
      ≡ some (n + (wait + load + 999) / 1000)
unfolding farm_run farm_step seconds_until_restock
opened_late-seconds now wait load n items h =
    let answered_at = now + wait + load in
    announced_seconds answered_at n (pos n) (seconds_passed now answered_at) h refl
    ∙ ap some (late now wait load n)
