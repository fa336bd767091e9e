-- ===== src/Usb/Endpoint/Pending.antt =====
-- When source/ControllerSwitch/SwitchUSBEndpoint.cpp posts a transfer.
use mathlib.Core.Path.{subst}
use native.Mathlib.Decide.{ℕ_discrete}
use sys_con.Prelude.{
  ℕ, suc, ◌+◌, ◌≡◌, ◌≢◌, refl, sym, ap, true, false, not, ◌||◌, Option, none, some, List, [], ◌∷◌,
  ◌++◌, length, ◌==◌, if◌then◌else◌, Bool-cases, inl, inr, arith,
}
use sys_con.Usb.Endpoint.{
  XferReport, Answers, Reader, Call, post, wait, report, post_sync, Read, reported_as, posted_as,
  on_report, await_event, read_async,
}

-- The calls of `ReadAsync` after `ReadAsync`, and the state that they leave.
unfoldable pub read_all : List Answers → Reader → List Call × Reader
read_all [] s = ([], s)
read_all (a ∷ more) s =
    let r = read_async a s in let rest = read_all more r.reader in (r.calls ++ rest.0, rest.1)

-- libnx gives no transfer the id 0.
abbrev pub GivesIds : List Answers → Type 0
GivesIds [] = Unit {0}
GivesIds (a ∷ more) = (a.posted ≢ some 0) × GivesIds more

-- How many transfers were posted without an error, and how often the event came.
unfoldable pub posts : List Call → ℕ
posts [] = 0
posts (post (some id) ∷ more) = suc (posts more)
posts (c ∷ more) = posts more

unfoldable pub events : List Call → ℕ
events [] = 0
events (wait true ∷ more) = suc (events more)
events (c ∷ more) = events more

-- 1 where the endpoint keeps the id of a transfer.
abbrev pub keeps : Reader → ℕ
keeps s = if s.xfer_id_read == 0 then 0 else 1

posts-append : (l m : List Call) → posts (l ++ m) ≡ posts l + posts m
unfolding posts
posts-append [] m = omega arith
posts-append (post none ∷ l) m = posts-append l m
posts-append (post (some id) ∷ l) m = omega (arith, posts-append l m)
posts-append (wait b ∷ l) m = posts-append l m
posts-append (report ∷ l) m = posts-append l m
posts-append (post_sync ∷ l) m = posts-append l m

events-append : (l m : List Call) → events (l ++ m) ≡ events l + events m
unfolding events
events-append [] m = omega arith
events-append (post p ∷ l) m = events-append l m
events-append (wait true ∷ l) m = omega (arith, events-append l m)
events-append (wait false ∷ l) m = events-append l m
events-append (report ∷ l) m = events-append l m
events-append (post_sync ∷ l) m = events-append l m

-- What one read posts and awaits.
abbrev Balances : Reader → Read → Type 0
Balances s r = posts r.calls + keeps s ≡ events r.calls + keeps r.reader

on_report-same :
    (id : ℕ) (r : XferReport) (s : Reader) (calls : List Call)
    → ((on_report id r s calls).reader ≡ s) × ((on_report id r s calls).calls ≡ calls)
unfolding on_report
on_report-same id r s calls = elim (Bool-cases (r.count == 0 || not (id == r.xfer_id))) [
  | inl e ↦ rw (e) (refl, refl)
  | inr e ↦ elim (Bool-cases (length r.bytes == 0)) [
    | inl f ↦ rw (e, f) (refl, refl)
    | inr f ↦ rw (e, f) (refl, refl)
  ]
]

event_came :
    (r : Read) (calls : List Call)
    → r.calls ≡ calls ++ wait true ∷ report ∷ []
    → r.reader ≡ record { xfer_id_read = 0 }
    → posts r.calls + 1 + events calls ≡ posts calls + events r.calls + keeps r.reader
unfolding posts events
event_came r calls c e =
    let added = wait true ∷ report ∷ [] in
    rw (c, e) (omega (arith, posts-append calls added, events-append calls added))

no_event :
    (s : Reader) (calls : List Call)
    → let after = calls ++ wait false ∷ [] in
      posts after + keeps s + events calls ≡ posts calls + events after + keeps s
unfolding posts events
no_event s calls =
    let added = wait false ∷ [] in
    omega (arith, posts-append calls added, events-append calls added)

keeps-one : (s : Reader) → s.xfer_id_read ≢ 0 → keeps s ≡ 1
keeps-one s h = ground arith

await_event-Balances :
    (a : Answers) (s : Reader) (calls : List Call)
    → s.xfer_id_read ≢ 0
    → let r = await_event a s calls in
      posts r.calls + keeps s + events calls ≡ posts calls + events r.calls + keeps r.reader
unfolding await_event
await_event-Balances a s calls h = elim (Bool-cases a.event) [
  | inr e ↦ rw (e, await_event) (no_event s calls)
  | inl e ↦ rw (keeps-one s h, e, await_event) (reported a.reported)
]
  where
    reported :
        (o : Option XferReport)
        → let r =
            reported_as s.xfer_id_read o
              (record { xfer_id_read = 0 })
              (calls ++ wait true ∷ report ∷ []) in
          posts r.calls + 1 + events calls ≡ posts calls + events r.calls + keeps r.reader
    reported none =
        event_came
          (reported_as s.xfer_id_read none (record { xfer_id_read = 0 })
            (calls ++ wait true ∷ report ∷ []))
          calls refl refl
    reported (some x) =
        let same =
          on_report-same s.xfer_id_read x (record { xfer_id_read = 0 })
            (calls ++ wait true ∷ report ∷ []) in
        event_came
          (on_report s.xfer_id_read x (record { xfer_id_read = 0 })
            (calls ++ wait true ∷ report ∷ []))
          calls same.1 same.0

posted_as-Balances :
    (a : Answers) (o : Option ℕ) (s : Reader)
    → o ≢ some 0
    → keeps s ≡ 0
    → Balances s (posted_as a o s)
unfolding posts events
posted_as-Balances a none s g z = rw (z) refl
posted_as-Balances a (some id) s g z =
    let waiting : Reader = record { xfer_id_read = id } in
    let set = λ (e : id ≡ 0). g (ap some e) in
    let first = post (some id) ∷ [] in
    omega (arith, z, keeps-one waiting set, await_event-Balances a waiting first set)

await_event_kept : (a : Answers) (s : Reader) → s.xfer_id_read ≢ 0 → Balances s (await_event a s [])
unfolding posts events
await_event_kept a s h = omega (arith, await_event-Balances a s [] h)

read_async-Balances : (a : Answers) (s : Reader) → a.posted ≢ some 0 → Balances s (read_async a s)
unfolding read_async
read_async-Balances a s g = elim (ℕ_discrete s.xfer_id_read 0) [
  | no n ↦ subst (Balances s) (sym (kept s n)) (await_event_kept a s n)
  | yes z ↦ subst (Balances s) (sym (new s z)) (posted_as-Balances a a.posted s g (ground arith))
]
  where
    kept : (s : Reader) → s.xfer_id_read ≢ 0 → read_async a s ≡ await_event a s []
    kept s n = ground arith

    new : (s : Reader) → s.xfer_id_read ≡ 0 → read_async a s ≡ posted_as a a.posted s
    new s z = ground arith

-- Over any calls of `ReadAsync`, whatever libnx answers, as long as no transfer has the id 0: the
-- transfers that are posted, with the one whose id was kept before, are as many as the times that the
-- event came, with the one whose id is kept afterwards. So at most one posted transfer is without its
-- event.
pub read_all-posts :
    (answers : List Answers) (s : Reader)
    → GivesIds answers
    → let t = read_all answers s in posts t.0 + keeps s ≡ events t.0 + keeps t.1
unfolding read_all posts events
read_all-posts [] s g = refl
read_all-posts (a ∷ more) s g =
    let r = read_async a s in
    let rest = read_all more r.reader in
    omega (
      arith,
      posts-append r.calls rest.0,
      events-append r.calls rest.0,
      read_async-Balances a s g.0,
      read_all-posts more r.reader g.1,
    )
