-- ===== src/Usb/Arrival/Chosen.antt =====
-- Which device a turn of the thread of source/Sysmodule/source/usb_module.cpp takes, and as what.
use sys_con.Prelude.{
  ◌≡◌, ◌↔◌, refl, ap, ◌∙◌, Bool, Option, none, some, List, [], ◌∷◌, Bool-cases, inl, inr,
}
use sys_con.Prelude.Text.{Bytes}
use sys_con.Config.Load.{Ini, File}
use sys_con.Usb.Handlers.{Handler, is_at_controller_limit}
use sys_con.Usb.Arrival.{
  Available, Query, Found, Made, Interface, until_event, queries, query, find_device, on_found,
  on_event, add_device, found_in,
}

-- Every query comes back empty.
pub AllEmpty : Available → List (Query × Bytes) → Type 0
AllEmpty available [] = Unit
AllEmpty available ((q, profile) ∷ rest) = (query available q ≡ []) × AllEmpty available rest

-- A query that finds something ends the search.
found_in-none :
    (l : List Interface) (profile : Bytes) (later : Option Found)
    → found_in l profile later ≡ none
    → (l ≡ []) × (later ≡ none)
found_in-none [] profile later e = (refl, e)
found_in-none (i ∷ is) profile later e = cc

find_device-AllEmpty :
    (available : Available) (qs : List (Query × Bytes))
    → find_device available qs ≡ none
    → AllEmpty available qs
unfolding find_device AllEmpty
find_device-AllEmpty available [] e = tt
find_device-AllEmpty available ((q, profile) ∷ rest) e =
    let (here, later) = found_in-none (query available q) profile (find_device available rest) e in
    (here, find_device-AllEmpty available rest later)

AllEmpty-find_device :
    (available : Available) (qs : List (Query × Bytes))
    → AllEmpty available qs
    → find_device available qs ≡ none
unfolding find_device AllEmpty
AllEmpty-find_device available [] h = refl
AllEmpty-find_device available ((q, profile) ∷ rest) (here, later) =
    ap (λ l. found_in l profile (find_device available rest)) here
    ∙ AllEmpty-find_device available rest later

module _ (ini : Ini) (stamp : Bytes) (auto : Bool) where
  on_found-timeout :
      (initialized : Made → Bool) (d : Option Found) (f : File) (l : List Handler)
      → ((on_found ini stamp auto initialized d f l).timeout ≡ until_event) ↔ (d ≡ none)
  unfolding on_found add_device
  on_found-timeout initialized none f l = (λ _. refl, λ _. refl)
  on_found-timeout initialized (some d) f l = elim (Bool-cases (is_at_controller_limit l)) [
    | inl e ↦ (λ h. cc (rw e at h), λ h. cc)
    | inr e ↦ (λ h. cc (rw e at h), λ h. cc)
  ]

  -- The thread waits for the next event exactly where none of the five queries finds an interface.
  -- After any device, one that the limit turns away included, it looks again a millisecond later.
  pub on_event-timeout :
      (available : Available) (initialized : Made → Bool) (f : File) (l : List Handler)
      → ((on_event ini stamp auto available initialized f l).timeout ≡ until_event)
        ↔ AllEmpty available queries
  unfolding on_event
  on_event-timeout available initialized f l =
      let t = on_found-timeout initialized (find_device available queries) f l in
      (
        λ h. find_device-AllEmpty available queries (t.0 h),
        λ h. t.1 (AllEmpty-find_device available queries h),
      )
