-- ===== src/Logger/Tests.antt =====
-- Lines of the log.
use quickstructs.Prelude.{List, ◌≡◌, refl, [], ◌∷◌, ◌++◌}
use quickstructs.Text.{codes, Text}
use quickstructs.Text.Numbers.{decimal, digits_of}
use quickstructs.Logger.{
  warn, level_to_string, level_to_color, impl_level_to_string, impl_level_to_color, impl_line, Time,
  time_text, Message, log_line, escape, make_timer, elapsed, stop,
}
use quickstructs.Logger.Names.{init_call, forward_call, Call}

-- Five milliseconds after nine.
abbrev nine : Time
nine = record { hour = 9; min = 0; sec = 7; ms = 5 }

nine-text : time_text nine ≡ codes "09:00:07.5"
unfolding time_text decimal digits_of
nine-text = refl

abbrev hello : Message
hello = record {
  level = warn;
  time = nine;
  func = codes "f";
  line = 12;
  args = codes "a=" ∷ codes "1" ∷ [];
}

hello-line :
    log_line (codes "T") hello
    ≡ escape (codes "33m")
      ++ codes "[09:00:07.5][WARN][T::f:12] a=1"
      ++ escape (codes "0m")
      ++ b'\n' ∷ []
unfolding log_line level_to_color level_to_string time_text decimal digits_of
hello-line = refl

impl-line :
    impl_line (codes "09:00:07.00") hello
    ≡ escape (codes "0m")
      ++ codes "[09:00:07.00][f:12][UNKNOWN] a=1"
      ++ escape (codes "0m")
      ++ b'\n' ∷ []
unfolding impl_line impl_level_to_color impl_level_to_string decimal digits_of
impl-line = refl

-- Two microseconds and a half, which are printed as 2ns.
timer-stop : stop (codes "U") 12500 (make_timer (codes "s") 10000) ≡ codes "U[Timer] s took 2ns"
unfolding stop elapsed decimal digits_of
timer-stop = refl

abbrev calls : List Call
calls = forward_call hello ∷ init_call (codes "T") ∷ forward_call hello ∷ []
