-- ===== src/Stack/Tests.antt =====
-- The stack operations at small stacks.
use uncil.Prelude.{ℕ, ◌<◌, ◌^◌, ◌≡◌, refl, arith, Bool, true, false, [], ◌∷◌, some, none, ltb}
use uncil.Stack.{
  Stack, StackResult, stackreserve, reserved, push, insertn, pullrug, pop, op_pullrug, run, at,
}
use uncil.Stack.Balance.{Balanced}
use uncil.Stack.Fits.{Fits}
use uncil.Stack.Sound.{run_sound}

abbrev three : Stack ℕ
three = record { values = 5 ∷ 6 ∷ 7 ∷ []; capacity = 3 }

abbrev any_room : ℕ → Bool
any_room nc = ltb nc 1000

push_grows : push any_room (8 ∷ []) three ≡ record {
  stack = record { values = 5 ∷ 6 ∷ 7 ∷ 8 ∷ []; capacity = 19 };
  taken = 8 ∷ [];
  released = [];
  failed = false;
}
unfolding push stackreserve reserved
push_grows = refl

push_fails :
    push (λ nc. false) (8 ∷ []) three
    ≡ record { stack = three; taken = []; released = []; failed = true }
unfolding push stackreserve reserved
push_fails = refl

-- One value from the top, which is given last
insertn_one :
    insertn any_room 1 9 three
    ≡ some (record {
      stack = record { values = 5 ∷ 6 ∷ 9 ∷ 7 ∷ []; capacity = 19 };
      taken = 9 ∷ [];
      released = [];
      failed = false;
    })
unfolding insertn stackreserve reserved
insertn_one = refl

pullrug_middle :
    pullrug 1 2 three
    ≡ some (record {
      stack = record { values = 5 ∷ 7 ∷ []; capacity = 3 };
      taken = [];
      released = 6 ∷ [];
      failed = false;
    })
unfolding pullrug
pullrug_middle = refl

pop_below : pop 4 three ≡ none
unfolding pop
pop_below = refl

at_top : at 0 three ≡ some 7
unfolding at
at_top = refl

any_room_small : (nc : ℕ) → any_room nc ≡ true → nc < 2 ^ 60
any_room_small nc h = ground arith

run_sound_example :
    (o : StackResult ℕ) × (run any_room 0 (op_pullrug 1 2) three ≡ some o)
    × Fits o.stack
    × Balanced (λ n. n) three o
run_sound_example =
    run_sound (λ n. n) any_room 0 (op_pullrug 1 2) three any_room_small refl (omega arith)
      (omega arith, omega arith) (omega arith, omega arith)
