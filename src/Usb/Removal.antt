-- ===== src/Usb/Removal.antt =====
-- `UsbInterfaceChangeThreadFunc` of source/Sysmodule/source/usb_module.cpp: from a device that was
-- unplugged to the handlers that stay.
use sys_con.Prelude.{
  ℕ, ◌≡◌, refl, ap, ◌∙◌, Bool, false, Option, none, some, List, [], ◌∷◌, ◌==◌, map,
}
use sys_con.Usb.Arrival.{Interface}
use sys_con.Usb.Handlers.{Handler, any_id, is_plugged, remove_all_non_plugged}
use sys_con.Usb.Handlers.Unplug.{plugged_only, remove_all_non_plugged-lem}

-- `QueryAcquiredInterfaces`: what libnx gives, and none where it gives an error.
abbrev query_acquired : Option (List Interface) → List Interface
query_acquired none = []
query_acquired (some l) = l

abbrev pub plugged_ids : Option (List Interface) → List ℕ
plugged_ids answer = map (λ (i : Interface). i.id) (query_acquired answer)

-- The body of the loop, behind the event.
unfoldable pub on_change : Option (List Interface) → List Handler → List Handler × Bool
on_change answer handlers = remove_all_non_plugged (plugged_ids answer) handlers

none_plugged : (ids : List ℕ) → any_id (λ id. any_id (λ other. id == other) []) ids ≡ false
none_plugged [] = refl
none_plugged (x ∷ ids) = none_plugged ids

never_plugged : (l : List Handler) → plugged_only [] l ≡ []
unfolding plugged_only is_plugged
never_plugged [] = refl
never_plugged (h ∷ l) = rw (none_plugged h.interface_ids) (never_plugged l)

-- An error of the query removes every handler.
on_change-none : (handlers : List Handler) → (on_change none handlers).0 ≡ []
unfolding on_change
on_change-none handlers =
    ap (λ (r : List Handler × Bool). r.0) (remove_all_non_plugged-lem [] handlers)
    ∙ never_plugged handlers
