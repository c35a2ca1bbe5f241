-- ===== src/Agents/Cap.antt =====
-- The cap on tool calls: it holds along the loop, and it makes the loop end.
use dependabot_harness.Prelude.{
  ℕ, zero, suc, ◌+◌, ◌≤◌, ◌<◌, ◌≡◌, refl, ◌∙◌, Bool, true, false, String, Option, none, some, List,
  [], ◌∷◌, ◌++◌, length, arith, Result, ok, err, Option-cases, Result-cases, Bool-cases, inl, inr,
  ◌⊎◌,
}
use dependabot_harness.Agents.{
  tool_of, Toolbox, used, remaining, exhausted, Handler, called, answer, dispatch, Request,
  ModelResponse, Turn, Client, LoopResult, run_calls, run_agent_loop,
}

length-snoc : {A : Type 0} (xs : List A) (x : A) → length (xs ++ x ∷ []) ≡ length xs + 1
length-snoc [] x = refl
length-snoc (y ∷ ys) x = ground (arith, length-snoc ys x)

-- How a toolbox has changed after `n` calls.
record Spends (box after : Toolbox) (n : ℕ) : Type 0 where
  cap : after.max_calls ≡ box.max_calls
  count : used after ≡ used box + n

called-Spends :
    (name arguments result : String) (error : Option String) (box : Toolbox)
    → Spends box (called name arguments result error box) 1
unfolding used
called-Spends name arguments result error box = record {
  cap = refl;
  count = length-snoc box.calls _;
}

answer-Spends :
    (name arguments : String) (given : Result String String) (box : Toolbox)
    → Spends box (answer name arguments given box).1 1
unfolding answer
answer-Spends name arguments (ok text) box = called-Spends name arguments text none box
answer-Spends name arguments (err message) box =
    called-Spends name arguments "error" (some message) box

dispatch_cases :
    (handle : Handler) (name arguments : String) (box : Toolbox)
    → ((dispatch handle name arguments box ≡ none) × (exhausted box ≡ true))
      ⊎ ((output : String) × (after : Toolbox) × (dispatch handle name arguments box
            ≡ some (output, after))
          × (exhausted box ≡ false)
          × Spends box after 1)
unfolding dispatch
dispatch_cases handle name arguments box = elim (Bool-cases (exhausted box)) [
  | inl spent ↦ inl (rw spent refl, spent)
  | inr free ↦ elim (Option-cases (tool_of name)) [
    | inl unknown ↦
        let text : String = "error: unknown tool" in
        inr (
          text,
          called name arguments text (some "unknown tool") box,
          rw (free, unknown) refl,
          free,
          called-Spends name arguments text _ box,
        )
    | inr (tool, known) ↦
        let given : Result String String = handle tool arguments in
        let reply : String × Toolbox = answer name arguments given box in
        inr (reply.0, reply.1, rw (free, known) refl, free, answer-Spends name arguments given box)
  ]
]

exhausted_iff :
    (box : Toolbox)
    → (exhausted box ≡ true → box.max_calls ≤ used box)
      × (exhausted box ≡ false → used box < box.max_calls)
unfolding exhausted remaining
exhausted_iff box = (λ h. ground arith, λ h. ground arith)

-- A round of calls: all of them are made, or the cap is reached.
record IsRound (calls : List Request) (box : Toolbox) (round : Option (List String) × Toolbox)
    : Type 0 where
  cap : round.1.max_calls ≡ box.max_calls
  within : used box ≤ box.max_calls → used round.1 ≤ box.max_calls
  made : (outputs : List String) → round.0 ≡ some outputs → used round.1 ≡ used box + length calls
  refused : round.0 ≡ none → exhausted round.1 ≡ true

join-eq-none :
    (output : String) (results : Option (List String))
    → (elim results [ none ↦ none | some rest ↦ some (output ∷ rest) ]) ≡ none
    → results ≡ none
join-eq-none output none h = refl
join-eq-none output (some rest) h = cc

join-eq-some :
    (output : String) (results : Option (List String)) (outputs : List String)
    → (elim results [ none ↦ none | some rest ↦ some (output ∷ rest) ]) ≡ some outputs
    → (rest : List String) × (results ≡ some rest)
join-eq-some output none outputs h = cc
join-eq-some output (some rest) outputs h = (rest, refl)

run_calls-IsRound :
    (handle : Handler) (calls : List Request) (box : Toolbox)
    → IsRound calls box (run_calls handle calls box)
unfolding run_calls
run_calls-IsRound handle [] box = record {
  cap = refl;
  within = λ h. h;
  made = λ outputs h. omega arith;
  refused = λ h. cc;
}
run_calls-IsRound handle (call ∷ calls) box =
    elim (dispatch_cases handle call.name call.arguments box) [
      | inl (stopped, spent) ↦
          rw (run_calls, stopped)
            (record { cap = refl; within = λ h. h; made = λ outputs h. cc; refused = λ h. spent })
      | inr (output, after, called, free, spends) ↦
          let rest = run_calls-IsRound handle calls after in
          let room = (exhausted_iff box).1 free in
          rw (run_calls, called)
            (record {
              cap = rest.cap ∙ spends.cap;
              within = λ h.
                  omega (
                    arith,
                    rest.within (omega (arith, spends.count, spends.cap, room)),
                    spends.cap,
                  );
              made = λ outputs h.
                  let (others, e) =
                    join-eq-some output (run_calls handle calls after).0 outputs h in
                  let total = rest.made others e in omega (arith, total, spends.count);
              refused = λ h. rest.refused (join-eq-none output _ h);
            })
    ]

List-cases : {A : Type 0} (xs : List A) → (xs ≡ []) ⊎ ((x : A) × (ys : List A) × (xs ≡ x ∷ ys))
List-cases [] = inl refl
List-cases (x ∷ ys) = inr (x, ys, refl)

-- What a result says: with `cap_reached` the budget is spent, without it the model asks for no tool.
abbrev pub Says : Bool → ModelResponse → Toolbox → Type 0
Says true response box = used box ≡ box.max_calls
Says false response box = response.tool_calls ≡ []

abbrev pub SaysSo : Result String LoopResult → Toolbox → Type 0
SaysSo (ok l) box = Says l.cap_reached l.response box
SaysSo (err e) box = Unit

pub record IsFinished (box : Toolbox) (end : Result String LoopResult × Toolbox) : Type 0 where
  pub cap : end.1.max_calls ≡ box.max_calls
  pub within : used end.1 ≤ box.max_calls
  pub says : SaysSo end.0 end.1

abbrev pub Ends : Toolbox → Option (Result String LoopResult × Toolbox) → Type 0
Ends box run = (end : Result String LoopResult × Toolbox) × (run ≡ some end) × IsFinished box end

-- An end of the toolbox after a round is an end of the toolbox before.
earlier :
    (box after : Toolbox) (run : Option (Result String LoopResult × Toolbox))
    → after.max_calls ≡ box.max_calls
    → Ends after run
    → Ends box run
earlier box after run same (end, ended, done) = (
  end,
  ended,
  record { cap = done.cap ∙ same; within = omega (arith, done.within, same); says = done.says },
)

-- Fuel above the remaining calls is enough, since each round that goes on uses a call: the loop
-- ends, with at most `max_calls` calls made; it reports the cap only when they are all made, and
-- otherwise its response asks for no tool.
pub run_agent_loop-Ends :
    (client : Client) (handle : Handler) (fuel : ℕ) (history : List Turn) (box : Toolbox)
    → used box ≤ box.max_calls
    → box.max_calls < used box + fuel
    → Ends box (run_agent_loop client handle fuel history box)
unfolding run_agent_loop
run_agent_loop-Ends client handle zero history box low enough = absurd (omega (arith, low, enough))
run_agent_loop-Ends client handle (suc fuel) history box low enough =
    elim (Result-cases (client history)) [
      | inr (e, failed) ↦
          rw (run_agent_loop, failed)
            ((err e, box), refl, record { cap = refl; within = low; says = tt })
      | inl (response, given) ↦ elim (List-cases response.tool_calls) [
        | inl asks_none ↦
            rw (run_agent_loop, given, asks_none)
              (
                (ok (record { response = response; cap_reached = false }), box),
                refl,
                record { cap = refl; within = low; says = asks_none },
              )
        | inr (call, calls, asks) ↦
            let round = run_calls-IsRound handle (call ∷ calls) box in
            let after : Toolbox = (run_calls handle (call ∷ calls) box).1 in
            elim (Option-cases (run_calls handle (call ∷ calls) box).0) [
              | inl stopped ↦
                  let full = (exhausted_iff after).0 (round.refused stopped) in
                  rw (run_agent_loop, given, asks, stopped)
                    (
                      (ok (record { response = response; cap_reached = true }), after),
                      refl,
                      record {
                        cap = round.cap;
                        within = round.within low;
                        says = omega (arith, full, round.within low, round.cap);
                      },
                    )
              | inr (outputs, made) ↦
                  let count = round.made outputs made in
                  rw (run_agent_loop, given, asks, made)
                    (earlier box after _ round.cap (
                      run_agent_loop-Ends client handle fuel _ after
                        (omega (arith, round.within low, round.cap))
                        (omega (arith, count, round.cap, enough))))
            ]
      ]
    ]
