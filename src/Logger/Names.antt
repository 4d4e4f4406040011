-- ===== src/Logger/Names.antt =====
-- The name that the first call gives stays, and every line has it.
use quickstructs.Prelude.{◌≡◌, List, [], ◌∷◌, ◌++◌, map}
use quickstructs.Text.{Text, codes}
use quickstructs.Text.Numbers.{decimal}
use quickstructs.Logger.{
  Message, Logger, log_line, join, generic_name, init, forward, level_to_string, escape,
}

-- The calls of SimpleLogger.
pub data Call : Type 0 where
  init_call : Text → Call
  forward_call : Message → Call

abbrev pub call : Call → Logger → Logger
call (init_call name) l = init name l
call (forward_call m) l = forward m l

unfoldable pub run : List Call → Logger → Logger
run [] l = l
run (c ∷ cs) l = run cs (call c l)

abbrev pub messages : List Call → List Message
messages [] = []
messages (init_call name ∷ cs) = messages cs
messages (forward_call m ∷ cs) = m ∷ messages cs

-- The name of the first call.
abbrev pub name_of : List Call → Text
name_of [] = generic_name
name_of (init_call name ∷ cs) = name
name_of (forward_call m ∷ cs) = generic_name

abbrev lines : Text → List Message → Text
lines name ms = join (map (log_line name) ms)

-- A line of the message `m`: behind its color and time, its level, the name, the function, the number
-- of the source line and its arguments, up to the end of the line.
abbrev pub IsLine : Text → Message → Text → Type 0
IsLine name m t =
    (front : Text) × (t
      ≡ front
        ++ codes "]["
        ++ level_to_string m.level
        ++ codes "]["
        ++ name
        ++ codes "::"
        ++ m.func
        ++ codes ":"
        ++ decimal m.line
        ++ codes "] "
        ++ join m.args
        ++ escape (codes "0m")
        ++ b'\n' ∷ [])

abbrev pub AreLines : Text → List Message → List Text → Type 0
AreLines name [] [] = Unit
AreLines name (m ∷ ms) (t ∷ ts) = IsLine name m t × AreLines name ms ts
AreLines name _ _ = ⊥
