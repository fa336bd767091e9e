-- ===== src/Usb/Interface/Pipes.antt =====
-- The endpoints that a driver gets from the console:
-- source/ControllerLib/Controllers/BaseController.cpp over source/ControllerSwitch/SwitchUSBInterface.cpp.
use sys_con.Prelude.{
  ℕ, zero, suc, ◌+◌, ◌≤◌, ◌<◌, ◌≡◌, ◌≢◌, refl, ap, ◌∙◌, sym, Bool, true, false, Bool-cases, inl,
  inr, Option, none, some, List, [], ◌∷◌, ◌++◌, map, length, get_or, take, drop, replicate, leb,
  ◌==◌, if◌then◌else◌, arith,
}
use sys_con.Controller.Result.{is_success}
use sys_con.Controller.Interfaces.{UsbEndpoint, open_interfaces}
use sys_con.Controller.Interfaces.Pipes.{present, all_in, all_out, open_interfaces-pipes}
use sys_con.Usb.Endpoint.{Descriptor}
use sys_con.Usb.Interface.{
  Session, max_endpoints, fill, open_device, by_index, met, met_all, as_interface,
}

-- The addresses of the descriptors that are not empty.
unfoldable pub addresses : List Descriptor → List ℕ
addresses [] = []
addresses (d ∷ ds) = if d.length == 0 then addresses ds else d.address ∷ addresses ds

-- Those of an interface, where the console gives it.
unfoldable pub described : (Session → List Descriptor) → List (Option Session) → List ℕ
described side [] = []
described side (none ∷ rest) = described side rest
described side (some s ∷ rest) = addresses (side s) ++ described side rest

-- What libnx promises: fifteen descriptors for each direction.
pub data Full : List (Option Session) → Type 0 where
  empty : Full []
  refused : (rest : List (Option Session)) → Full rest → Full (none ∷ rest)
  given :
      (s : Session) (rest : List (Option Session))
      → length s.input_descs ≡ max_endpoints
      → length s.output_descs ≡ max_endpoints
      → Full rest
      → Full (some s ∷ rest)

drop_cons :
    (i : ℕ) (es : List (Option Descriptor))
    → i < length es
    → get_or es i none ∷ drop (suc i) es ≡ drop i es
drop_cons i [] h = absurd (omega arith)
drop_cons zero (e ∷ es) h = refl
drop_cons (suc i) (e ∷ es) h = drop_cons i es (omega arith)

drop_from : (i : ℕ) (es : List (Option Descriptor)) → length es ≤ i → drop i es ≡ []
drop_from zero [] h = refl
drop_from zero (e ∷ es) h = absurd (omega arith)
drop_from (suc i) [] h = refl
drop_from (suc i) (e ∷ es) h = drop_from i es (omega arith)

inside : (i : ℕ) → i < 15 → leb max_endpoints i ≡ false
inside i h = ground arith

by_index-drop :
    (left i : ℕ) (es : List (Option Descriptor))
    → i + left ≡ length es
    → length es ≤ max_endpoints
    → by_index left i es ≡ drop i es
unfolding by_index
by_index-drop zero i es e h = sym (drop_from i es (omega (arith, e)))
by_index-drop (suc left) i es e h = rw (inside i (omega arith)) (
    ap (λ l. get_or es i none ∷ l) (by_index-drop left (suc i) es (omega arith) h)
    ∙ drop_cons i es (omega arith))

by_index-all : (es : List (Option Descriptor)) → length es ≡ 15 → by_index 15 0 es ≡ es
by_index-all es h = by_index-drop 15 0 es (omega (arith, h)) (omega (arith, h))

length-fill :
    (ds : List Descriptor) (es : List (Option Descriptor)) → length (fill ds es) ≡ length es
unfolding fill
length-fill [] es = refl
length-fill (d ∷ ds) [] = refl
length-fill (d ∷ ds) (e ∷ es) = ap suc (length-fill ds es)

module _ (opens : Descriptor → ℕ → Bool) where
  present-fill :
      (max_size n : ℕ) (ds : List Descriptor)
      → length ds ≡ n
      → present (map (met opens max_size) (fill ds (replicate n none))) ≡ addresses ds
  unfolding fill present addresses
  present-fill max_size zero [] e = refl
  present-fill max_size (suc n) [] e = absurd (omega (arith, e))
  present-fill max_size zero (d ∷ ds) e = absurd (omega (arith, e))
  present-fill max_size (suc n) (d ∷ ds) e =
      let rest = present-fill max_size n ds (omega (arith, e)) in
      elim (Bool-cases (d.length == 0)) [
        | inl t ↦ rw (t) rest
        | inr f ↦ rw (f) (ap (λ l. d.address ∷ l) rest)
      ]

  length-met :
      (max_size : ℕ) (es : List (Option Descriptor))
      → length (map (met opens max_size) es) ≡ length es
  length-met max_size [] = refl
  length-met max_size (e ∷ es) = ap suc (length-met max_size es)

  take_whole : (n : ℕ) (l : List (Option UsbEndpoint)) → length l ≡ n → take n l ≡ l
  take_whole zero [] h = refl
  take_whole zero (e ∷ l) h = absurd (omega (arith, h))
  take_whole (suc n) [] h = refl
  take_whole (suc n) (e ∷ l) h = ap (λ r. e ∷ r) (take_whole n l (omega (arith, h)))

  -- What `OpenInterfaces` meets in one direction.
  met-present :
      (max_size : ℕ) (es : List (Option Descriptor))
      → length es ≡ max_endpoints
      → present (take max_endpoints (met_all opens max_size es))
        ≡ present (map (met opens max_size) es)
  met-present max_size es h =
      ap (λ l. present (take max_endpoints (map (met opens max_size) l))) (by_index-all es h)
      ∙ ap present
          (take_whole max_endpoints (map (met opens max_size) es) (length-met max_size es ∙ h))

  met-fill :
      (max_size : ℕ) (ds : List Descriptor)
      → length ds ≡ max_endpoints
      → present
          (take max_endpoints (met_all opens max_size (fill ds (replicate max_endpoints none))))
        ≡ addresses ds
  met-fill max_size ds e =
      met-present max_size (fill ds (replicate max_endpoints none))
        (length-fill ds (replicate max_endpoints none))
      ∙ present-fill max_size max_endpoints ds e

  module _ (in_max out_max : ℕ) where
    met-described :
        (l : List (Option Session))
        → Full l
        → (all_in (map (as_interface opens in_max out_max) l) ≡ described (λ s. s.input_descs) l)
          × (all_out (map (as_interface opens in_max out_max) l)
              ≡ described (λ s. s.output_descs) l)
    unfolding all_in all_out described as_interface present
    met-described _ empty = (refl, refl)
    met-described _ (refused rest f) = met-described rest f
    met-described _ (given s rest i o f) =
        let more = met-described rest f in
        rw (met-fill in_max s.input_descs i, met-fill out_max s.output_descs o)
          (
            ap (λ r. addresses s.input_descs ++ r) more.0,
            ap (λ r. addresses s.output_descs ++ r) more.1,
          )

    -- Where libnx gives fifteen descriptors for each direction of an interface: if `OpenInterfaces`
    -- succeeds over the interfaces of the console, the driver has an endpoint for each descriptor that
    -- is not empty, of each interface in order, and an input endpoint among them.
    pub open_interfaces-described :
        (l : List (Option Session))
        → Full l
        → let o =
            open_interfaces (open_device (length l)) (map (as_interface opens in_max out_max) l) in
          is_success o.0 ≡ true
          → (o.1.in_pipe ≡ described (λ s. s.input_descs) l)
            × (o.1.out_pipe ≡ described (λ s. s.output_descs) l)
            × (described (λ s. s.input_descs) l ≢ [])
    open_interfaces-described l f h =
        let same = met-described l f in
        let pipes =
          open_interfaces-pipes (open_device (length l)) (map (as_interface opens in_max out_max) l)
            h in
        (pipes.0 ∙ same.0, pipes.1 ∙ same.1, λ e. pipes.2 (same.0 ∙ e))
