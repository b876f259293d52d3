-- ===== src/Web/GoatExamples.antt =====
-- A restock of the farm while its popup is open.
use faf_hackathon_challenge.Prelude.{
  ℕ, ◌+◌, ◌-◌, ◌*◌, ◌/◌, ◌≤◌, ◌≡◌, refl, ◌↔◌, String, some, List, [], ◌∷◌, arith, if◌then◌else◌,
  ◌==◌,
}
use faf_hackathon_challenge.Prelude.Int.{pos}
use faf_hackathon_challenge.Web.GoatFarm.{
  seconds_passed, seconds_until_restock, format_restock, Farm, FarmEvent, passes, toggles, ticks,
  loads, load_fails, refetches, farm_step, farm_run, mount_farm,
}
use faf_hackathon_challenge.Web.GoatClock.{IsSound, farm_run-IsSound}
use faf_hackathon_challenge.Web.GoatCountdown.{ticked-seconds}

abbrev seen : List FarmEvent
seen = toggles ∷ passes 100 ∷ loads [] (pos 60) ∷ passes 900 ∷ []

farm_run-IsSound_example : IsSound (farm_run seen (mount_farm 1000))
farm_run-IsSound_example = farm_run-IsSound seen 1000

abbrev farm : Farm
farm = farm_run seen (mount_farm 1000)

ticked-seconds_example :
    (seconds_until_restock (farm_step ticks farm) ≡ some (60 - (farm.clock - 1100) / 1000))
    × ((seconds_until_restock (farm_step ticks farm) ≡ some 0) ↔ (1100 + 60 * 1000 ≤ farm.clock))
unfolding farm_run farm_step seconds_until_restock seconds_passed
ticked-seconds_example =
    ticked-seconds seen 1000 60
      (record { items = []; seconds_until_restock = pos 60; data_updated_at = 1100 }) refl refl
      (omega arith) refl

-- Ten minutes and a tenth of a second after the page is loaded, 11:01 for a restock each minute.
late_test :
    seconds_until_restock
      (farm_run (passes 600000 ∷ toggles ∷ passes 100 ∷ loads [] (pos 60) ∷ []) (mount_farm 1000))
    ≡ some (60 + (600000 + 100 + 999) / 1000)
unfolding farm_run farm_step seconds_until_restock seconds_passed
late_test = refl

abbrev print : ℕ → String
print n = if n == 11 then "11" else "1"

format_test : format_restock print (60 + (600000 + 100 + 999) / 1000) ≡ "11:01"
unfolding format_restock
format_test = refl

abbrev waited : List FarmEvent
waited = toggles ∷ loads [] (pos 1) ∷ passes 1000 ∷ ticks ∷ refetches ∷ []

abbrev quiet : List FarmEvent
quiet = load_fails ∷ passes 60000 ∷ ticks ∷ []

-- A minute after the request has failed.
quiet_test : seconds_until_restock (farm_run quiet (farm_run waited (mount_farm 1000))) ≡ some 0
unfolding farm_run farm_step seconds_until_restock seconds_passed
quiet_test = refl

-- It has asked once by then.
asked_test : (farm_run waited (mount_farm 1000)).refetched ≡ 1
unfolding farm_run farm_step seconds_until_restock seconds_passed
asked_test = refl
