-- ===== src/Controller/Interfaces/Pipes.antt =====
-- The endpoints that a driver has when `OpenInterfaces` of
-- source/ControllerLib/Controllers/BaseController.cpp succeeds.
use mathlib.Core.List.{append-nil, append_assoc}
use sys_con.Prelude.{
  ℕ, ◌≡◌, ◌≢◌, refl, ap, ◌∙◌, sym, Bool, true, false, Option, none, some, List, [], ◌∷◌, ◌++◌, take,
  Bool-cases, inl, inr,
}
use sys_con.Controller.Result.{ControllerResult, is_success}
use sys_con.Controller.Interfaces.{
  UsbEndpoint, UsbInterface, Opened, nothing_open, max_index, open_endpoints, open_interface,
  open_all, check_pipes, pipe_result, open_interfaces, after_in, after_out,
}

-- The endpoints that are there, in their order.
unfoldable pub present : List (Option UsbEndpoint) → List ℕ
present [] = []
present (none ∷ rest) = present rest
present (some e ∷ rest) = e.id ∷ present rest

unfoldable pub all_in : List UsbInterface → List ℕ
all_in [] = []
all_in (i ∷ is) = present (take max_index i.in_endpoints) ++ all_in is

unfoldable pub all_out : List UsbInterface → List ℕ
all_out [] = []
all_out (i ∷ is) = present (take max_index i.out_endpoints) ++ all_out is

-- A test that is false is not true.
refuted : (b : Bool) → b ≡ false → b ≡ true → ⊥
refuted b f t = cc

open_endpoints-present :
    (l : List (Option UsbEndpoint)) (pipe : List ℕ)
    → is_success (open_endpoints l pipe).0 ≡ true
    → (open_endpoints l pipe).1 ≡ pipe ++ present l
unfolding open_endpoints present
open_endpoints-present [] pipe h = sym (append-nil pipe)
open_endpoints-present (none ∷ rest) pipe h = open_endpoints-present rest pipe h
open_endpoints-present (some e ∷ rest) pipe h = elim (Bool-cases (is_success e.open_rc)) [
  | inl t ↦ rw (t) (
      open_endpoints-present rest (pipe ++ e.id ∷ []) (rw (t) at h)
      ∙ append_assoc pipe (e.id ∷ []) (present rest))
  | inr t ↦ absurd (refuted (is_success e.open_rc) t (rw (t) at h))
]

-- What opening interfaces with the endpoints `ins` and `outs` shall leave of what was open before.
abbrev Extends : List ℕ → List ℕ → Opened → Opened → Type 0
Extends ins outs o after =
    (after.in_pipe ≡ o.in_pipe ++ ins) × (after.out_pipe ≡ o.out_pipe ++ outs)

after_out-pipe :
    (i : UsbInterface) (o : Opened) (r : ControllerResult) (pipe : List ℕ)
    → is_success (after_out i o (r, pipe)).0 ≡ true
    → (is_success r ≡ true)
      × ((after_out i o (r, pipe)).1.in_pipe ≡ o.in_pipe)
      × ((after_out i o (r, pipe)).1.out_pipe ≡ pipe)
after_out-pipe i o r pipe h = elim (Bool-cases (is_success r)) [
  | inl t ↦ rw (t) (refl, refl, refl)
  | inr t ↦ absurd (refuted (is_success r) t (rw (t) at h))
]

after_in-pipe :
    (i : UsbInterface) (o : Opened) (r : ControllerResult) (pipe : List ℕ)
    → is_success (after_in i o (r, pipe)).0 ≡ true
    → (is_success r ≡ true)
      × ((after_in i o (r, pipe)).1.in_pipe ≡ pipe)
      × ((after_in i o (r, pipe)).1.out_pipe
          ≡ o.out_pipe ++ present (take max_index i.out_endpoints))
after_in-pipe i o r pipe h = elim (Bool-cases (is_success r)) [
  | inl t ↦
      let outs = open_endpoints (take max_index i.out_endpoints) o.out_pipe in
      let (ok, same, new) =
        after_out-pipe i (record o { in_pipe = pipe }) outs.0 outs.1 (rw (t) at h) in
      rw (t)
        (refl, same, new ∙ open_endpoints-present (take max_index i.out_endpoints) o.out_pipe ok)
  | inr t ↦ absurd (refuted (is_success r) t (rw (t) at h))
]

open_interface-Extends :
    (i : UsbInterface) (o : Opened)
    → is_success (open_interface i o).0 ≡ true
    → Extends
        (present (take max_index i.in_endpoints))
        (present (take max_index i.out_endpoints))
        o
        (open_interface i o).1
unfolding open_interface
open_interface-Extends i o h = elim (Bool-cases (is_success i.open_rc)) [
  | inl t ↦
      let ins = open_endpoints (take max_index i.in_endpoints) o.in_pipe in
      let (ok, new, outs) = after_in-pipe i o ins.0 ins.1 (rw (t) at h) in
      rw (t) (new ∙ open_endpoints-present (take max_index i.in_endpoints) o.in_pipe ok, outs)
  | inr t ↦ absurd (refuted (is_success i.open_rc) t (rw (t) at h))
]

open_all-Extends :
    (l : List UsbInterface) (o : Opened)
    → is_success (open_all l o).0 ≡ true
    → Extends (all_in l) (all_out l) o (open_all l o).1
unfolding open_all all_in all_out
open_all-Extends [] o h = (sym (append-nil o.in_pipe), sym (append-nil o.out_pipe))
open_all-Extends (i ∷ rest) o h = elim (Bool-cases (is_success (open_interface i o).0)) [
  | inl t ↦
      let (ins, outs) = open_interface-Extends i o t in
      let (more_in, more_out) = open_all-Extends rest (open_interface i o).1 (rw (t) at h) in
      rw (t) (
        more_in ∙ ap (λ p. p ++ all_in rest) ins ∙ append_assoc o.in_pipe _ (all_in rest),
        more_out ∙ ap (λ p. p ++ all_out rest) outs ∙ append_assoc o.out_pipe _ (all_out rest),
      )
  | inr t ↦ absurd (refuted (is_success (open_interface i o).0) t (rw (t) at h))
]

checked :
    (r : ControllerResult) (o : Opened)
    → is_success (check_pipes (r, o)).0 ≡ true
    → (is_success r ≡ true) × (o.in_pipe ≢ []) × ((check_pipes (r, o)).1 ≡ o)
checked r o h = elim (Bool-cases (is_success r)) [
  | inl t ↦ rw (t) (refl, some_pipe o.in_pipe (rw (t) at h), refl)
  | inr t ↦ absurd (refuted (is_success r) t (rw (t) at h))
]
  where
    some_pipe : (p : List ℕ) → is_success (pipe_result p) ≡ true → p ≢ []
    some_pipe [] h = cc
    some_pipe (e ∷ es) h = λ q. cc

-- Where `OpenInterfaces` succeeds, the driver has every endpoint of the first fifteen of every
-- interface, each direction in its order, and at least one of them is an input endpoint.
pub open_interfaces-pipes :
    (device_rc : ControllerResult) (l : List UsbInterface)
    → is_success (open_interfaces device_rc l).0 ≡ true
    → ((open_interfaces device_rc l).1.in_pipe ≡ all_in l)
      × ((open_interfaces device_rc l).1.out_pipe ≡ all_out l)
      × (all_in l ≢ [])
unfolding open_interfaces
open_interfaces-pipes device_rc l h = elim (Bool-cases (is_success device_rc)) [
  | inl t ↦
      let o = open_all l nothing_open in
      let (ok, some_in, same) = checked o.0 o.1 (rw (t) at h) in
      let (ins, outs) = open_all-Extends l nothing_open ok in
      rw (t) (
        ap (λ (p : Opened). p.in_pipe) same ∙ ins,
        ap (λ (p : Opened). p.out_pipe) same ∙ outs,
        λ e. some_in (ins ∙ e),
      )
  | inr t ↦ absurd (refuted (is_success device_rc) t (rw (t) at h))
]
