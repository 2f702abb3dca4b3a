-- ===== src/Identity/KycSound.antt =====
-- Every event keeps the KYC state of frontend/src/pages/Identity.tsx sound.
use zkredit.Prelude.{
  ℕ, suc, ◌+◌, ◌≡◌, refl, sym, ◌∙◌, String, Bool, true, false, not, ◌&&◌, Option, none, some, List,
  ◌∷◌, ◌++◌, All, All-middle, All-map, All-imp, str_eq, eq_refl, arith, inl, inr, Bool-cases,
}
use zkredit.Effects.Json.{null, bool, num, str, arr, obj}
use zkredit.Identity.{KycState}
use zkredit.Identity.Kyc.{stop_polling, start_polling}
use zkredit.Identity.KycSteps.{
  Waiting, effect, ticked, refreshed, opening, started, Page, Reply, answered, failed, truthy,
  settle, ask_about, fail_start, goes_on_polling, on_reply, resume, cancelled, clean_up, run_effect,
  change_commitment, begin_start, begin_refresh, Step, changes, ticks, starts, refreshes, replies,
  Reach, here, next, mounted,
}
use zkredit.Identity.KycEvents.{
  WasStarted, IsKnownAs, IsKnown, IsTimer, is_start, starts_of, one_if, IsSound, starts_of-middle,
  starts_of-cancelled, known-stopped, known-cons, known-unshown, IsTimer-unshown, IsTimer-cons,
  IsSettled, settle-IsSettled,
}

IsTimer-settled :
    (commitment : Option String) (history : List String) (s t : KycState)
    → IsSettled s t
    → IsTimer commitment history s.interval
    → IsTimer commitment history t.interval
IsTimer-settled commitment history s t (same, inl e) h = rw e tt
IsTimer-settled commitment history s t (same, inr e) h = rw e h

-- The requests that are left, with a state behind a reply.
settled-IsSound :
    (p : Page) (t : KycState)
    → IsSettled p.kyc t
    → All (IsKnown p.commitment p.history) p.requests
    → IsTimer p.commitment p.history p.kyc.interval
    → starts_of p.requests ≡ one_if p.kyc.starting
    → IsSound (record p { kyc = t })
settled-IsSound p t s known timer count = record {
  known = known;
  timer = IsTimer-settled p.commitment p.history p.kyc t s timer;
  one_start = rw (s.0) count;
}

-- The effect goes on polling for the commitment shown, and not at all once it is cancelled.
goes_on-IsSound :
    (b : Bool) (c : String) (again : Bool) (p : Page)
    → IsSound p
    → IsKnownAs p.commitment p.history c (effect b)
    → IsSound (record p { kyc = goes_on_polling (again && not b) c p.kyc })
unfolding start_polling
goes_on-IsSound true c true p v k = v
goes_on-IsSound true c false p v k = v
goes_on-IsSound false c false p v k = v
goes_on-IsSound false c true p v k = record {
  known = v.known;
  timer = inl k;
  one_start = v.one_start;
}

asked-IsSound :
    (c : String) (p : Page)
    → All (IsKnown p.commitment p.history) p.requests
    → IsTimer p.commitment p.history p.kyc.interval
    → WasStarted p.history c
    → suc (starts_of p.requests) ≡ one_if p.kyc.starting
    → IsSound (ask_about started c p)
unfolding ask_about starts_of
asked-IsSound c p known timer k count = record {
  known = (k, known);
  timer = timer;
  one_start = omega (arith, count);
}

no_more : (n : ℕ) (b : Bool) → suc n ≡ one_if b → n ≡ 0
no_more n b h = ground arith

-- Of the request that is answered, `count` still counts a verification that is starting.
resume-IsSound :
    (w : Waiting) (c : String) (reply : Reply) (p : Page)
    → All (IsKnown p.commitment p.history) p.requests
    → IsTimer p.commitment p.history p.kyc.interval
    → IsKnownAs p.commitment p.history c w
    → is_start w + starts_of p.requests ≡ one_if p.kyc.starting
    → IsSound (resume w c reply p)
unfolding start_polling fail_start
resume-IsSound ticked c reply p known timer k count =
    settled-IsSound p (settle reply p.kyc).0 (settle-IsSettled reply p.kyc) known timer
      (omega (arith, count))
resume-IsSound refreshed c reply p known timer k count =
    settled-IsSound p (settle reply p.kyc).0 (settle-IsSettled reply p.kyc) known timer
      (omega (arith, count))
resume-IsSound (effect b) c reply p known timer k count =
    goes_on-IsSound b c (settle reply p.kyc).1 (record p { kyc = (settle reply p.kyc).0 })
      (settled-IsSound p (settle reply p.kyc).0 (settle-IsSettled reply p.kyc) known timer
        (omega (arith, count)))
      k
resume-IsSound started c reply p known timer k count = record {
  known = known;
  timer = inr k;
  one_start = no_more (starts_of p.requests) p.kyc.starting (omega (arith, count));
}
resume-IsSound opening c (failed e) p known timer k count = record {
  known = known;
  timer = timer;
  one_start = no_more (starts_of p.requests) p.kyc.starting (omega (arith, count));
}
resume-IsSound opening c (answered null) p known timer k count = record {
  known = known;
  timer = timer;
  one_start = no_more (starts_of p.requests) p.kyc.starting (omega (arith, count));
}
resume-IsSound opening c (answered (bool b)) p known timer k count =
    asked-IsSound c p known timer k (omega (arith, count))
resume-IsSound opening c (answered (num b)) p known timer k count =
    asked-IsSound c p known timer k (omega (arith, count))
resume-IsSound opening c (answered (str b)) p known timer k count =
    asked-IsSound c p known timer k (omega (arith, count))
resume-IsSound opening c (answered (arr b)) p known timer k count =
    asked-IsSound c p known timer k (omega (arith, count))
resume-IsSound opening c (answered (obj b)) p known timer k count =
    asked-IsSound c p known timer k (omega (arith, count))

clean_up-IsSound :
    (p : Page) (c : Option String) → IsSound p → IsSound (record (clean_up p) { commitment = c })
unfolding clean_up stop_polling
clean_up-IsSound p c v = elim (Bool-cases (truthy p.commitment)) [
  | inl shown ↦ rw shown (record {
    known =
        All-map (IsKnown p.commitment p.history) (IsKnown c p.history) cancelled p.requests
          (λ r h. known-stopped p.commitment c p.history r.about r.waiting h) v.known;
    timer = tt;
    one_start = starts_of-cancelled p.requests ∙ v.one_start;
  })
  | inr empty ↦ rw empty (record {
    known =
        All-imp (IsKnown p.commitment p.history) (IsKnown c p.history) p.requests
          (λ r h. known-unshown p.commitment c p.history r.about r.waiting empty h) v.known;
    timer = IsTimer-unshown p.commitment c p.history p.kyc.interval empty v.timer;
    one_start = v.one_start;
  })
]

run_effect-IsSound :
    (c : Option String) (p : Page) → p.commitment ≡ c → IsSound p → IsSound (run_effect c p)
unfolding run_effect stop_polling ask_about starts_of
run_effect-IsSound none p e v = record { known = v.known; timer = tt; one_start = v.one_start }
run_effect-IsSound (some c) p e v = elim (Bool-cases (str_eq c "")) [
  | inl empty ↦ rw empty (record { known = v.known; timer = tt; one_start = v.one_start })
  | inr full ↦ rw full (record {
    known = ((e, rw full refl), v.known);
    timer = v.timer;
    one_start = omega (arith, v.one_start);
  })
]

pub Step-IsSound : {p q : Page} → Step p q → IsSound p → IsSound q
unfolding change_commitment begin_start begin_refresh ask_about on_reply starts_of
Step-IsSound (changes p c differ) v =
    run_effect-IsSound c (record (clean_up p) { commitment = c }) refl (clean_up-IsSound p c v)
Step-IsSound (ticks p c e) v = record {
  known = (tt, v.known);
  timer = v.timer;
  one_start = omega (arith, v.one_start);
}
Step-IsSound (starts p c e full idle) v = record {
  known = (
    ground (arith, eq_refl c),
    All-imp (IsKnown p.commitment p.history) (IsKnown p.commitment (c ∷ p.history)) p.requests
        (λ r h. known-cons p.commitment c p.history r.about r.waiting h) v.known,
  );
  timer = IsTimer-cons p.commitment c p.history p.kyc.interval v.timer;
  one_start = ground (arith, v.one_start);
}
Step-IsSound (refreshes p c e full) v = record {
  known = (tt, v.known);
  timer = v.timer;
  one_start = omega (arith, v.one_start);
}
Step-IsSound (replies p front back r reply e) v =
    let all : All (IsKnown p.commitment p.history) (front ++ (r ∷ back)) = rw (← e) v.known in
    let (k, rest) = All-middle (IsKnown p.commitment p.history) front back r all in
    let count : starts_of (front ++ (r ∷ back)) ≡ one_if p.kyc.starting = rw (← e) v.one_start in
    resume-IsSound r.waiting r.about reply (record p { requests = front ++ back }) rest v.timer k
      (sym (starts_of-middle front back r) ∙ count)

mounted-IsSound : (s : KycState) → s.interval ≡ none → s.starting ≡ false → IsSound (mounted s)
unfolding mounted starts_of
mounted-IsSound s e idle = record { known = tt; timer = rw e tt; one_start = rw idle refl }

-- From a page without a timer and without a verification that is starting, in every order of
-- changes of the commitment, ticks of the timer, clicks and replies: a request of an effect that
-- is not cancelled is about the commitment shown; a running timer asks about the commitment shown
-- or about one that a verification was started for; and exactly one verification is in flight
-- while the page shows that one is starting, and none otherwise.
pub Reach-IsSound :
    (s : KycState) (p : Page)
    → s.interval ≡ none
    → s.starting ≡ false
    → Reach (mounted s) p
    → IsSound p
Reach-IsSound s p e idle r = kept r
  where
    kept : {q : Page} → Reach (mounted s) q → IsSound q
    kept here = mounted-IsSound s e idle
    kept (next before step) = Step-IsSound step (kept before)
