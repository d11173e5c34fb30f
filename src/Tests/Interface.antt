-- ===== src/Tests/Interface.antt =====
-- A session of the user interface, and a line that is too long.
use sistemas_distribuid.Base.{
  ℕ, ltb, ◌-◌, ◌≡◌, if◌then◌else◌, List, [], ◌∷◌, ◌++◌, length, take, drop, some, refl, arith,
}
use sistemas_distribuid.Client.Interface.{
  Command, subscribe, publish, receive, menu, read_input, newline,
}
use sistemas_distribuid.Client.Interface.Lines.{IsPlain, read_input-line}
use sistemas_distribuid.Client.Interface.Session.{Fits, typed, menu-typed}

abbrev topic : List ℕ
topic = b'n' ∷ b'e' ∷ b'w' ∷ b's' ∷ []

abbrev session : List Command
session = subscribe topic ∷ publish (b'h' ∷ b'i' ∷ []) topic ∷ receive ∷ []

topic-IsPlain : IsPlain topic
topic-IsPlain = (refl, refl, (refl, refl, (refl, refl, (refl, refl, tt))))

session-Fits : Fits session
session-Fits = (
  topic-IsPlain,
  omega arith,
  (topic-IsPlain, omega arith, (refl, refl, (refl, refl, tt)), omega arith, tt),
)

menu-typed_example : menu [] 4 (typed session []) ≡ some (session, [])
menu-typed_example = menu-typed [] [] session session-Fits

read_input-line_example : read_input [] 4 (topic ++ newline ∷ []) ≡ (
    if ltb (length topic) (4 - 1)
    then (topic, [])
    else (take (4 - 1) topic, drop (4 - 1) topic ++ newline ∷ []))
read_input-line_example = read_input-line [] topic [] 4 topic-IsPlain
