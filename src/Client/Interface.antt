-- ===== src/Client/Interface.antt =====
-- broker/client/client.c: the menu of a client. A buffer is the text in it. The calls of the library
-- are recorded: what they return is only printed.
pub mod Lines
pub mod Session
use sistemas_distribuid.Base.{
  ℕ, zero, suc, ◌-◌, ℤ, pos, ◌=ℤ◌, ◌==◌, if◌then◌else◌, Bool, true, false, List, [], ◌∷◌, Option,
  none, some, text, strtol,
}
use sistemas_distribuid.Ipc.Message.{max_topic_length, max_msg_length}

abbrev pub newline : ℕ
newline = 10

-- `fgets` takes at most so many characters, and none behind a newline.
unfoldable pub take_line : ℕ → List ℕ → List ℕ × List ℕ
take_line zero input = ([], input)
take_line (suc n) [] = ([], [])
take_line (suc n) (c ∷ cs) =
    let (line, rest) = take_line n cs in if c == newline then (c ∷ [], cs) else (c ∷ line, rest)

-- At the end of the input it leaves the buffer as it was.
unfoldable pub fgets : List ℕ → ℕ → List ℕ → List ℕ × List ℕ
fgets before max_size [] = (before, [])
fgets before max_size (c ∷ cs) = take_line (max_size - 1) (c ∷ cs)

-- The text without the newline at its end.
unfoldable pub chomp : List ℕ → List ℕ
chomp [] = []
chomp (c ∷ []) = if c == newline then [] else c ∷ []
chomp (c ∷ d ∷ cs) = c ∷ chomp (d ∷ cs)

-- `read_input`, for a buffer with this text before: the text, and the rest of the input.
unfoldable pub read_input : List ℕ → ℕ → List ℕ → List ℕ × List ℕ
read_input before max_size input =
    let (buffer, rest) = fgets before max_size input in (chomp (text buffer), rest)

unfoldable pub read_option : List ℕ → List ℕ → ℤ × List ℕ
read_option before input = let (buffer, rest) = read_input before 10 input in (strtol buffer, rest)

-- A call of the library for this client.
pub data Command : Type 0 where
  subscribe : List ℕ → Command
  publish : List ℕ → List ℕ → Command
  receive : Command

unfoldable pub client_subscribe : List ℕ → List ℕ → Command × List ℕ
client_subscribe before input =
    let (topic, rest) = read_input before max_topic_length input in (subscribe topic, rest)

unfoldable pub client_send : List ℕ → List ℕ → Command × List ℕ
client_send before input =
    let (topic, rest) = read_input before max_topic_length input in
    let (message, rest') = read_input before max_msg_length rest in (publish message topic, rest')

-- One round of the loop: whether it ends there, the call that it makes if any, and the rest.
unfoldable pub round : List ℕ → List ℕ → Bool × Option Command × List ℕ
round before input =
    let (option, rest) = read_option before input in
    let (subscribed, rest1) = client_subscribe before rest in
    let (sent, rest2) = client_send before rest in
    if option =ℤ pos 1
    then (false, some subscribed, rest1)
    else if option =ℤ pos 2
    then (false, some sent, rest2)
    else if option =ℤ pos 3
    then (false, some receive, rest)
    else if option =ℤ pos 4
    then (true, none, rest)
    else (false, none, rest)

abbrev called : Option Command → List Command → List Command
called none calls = calls
called (some call) calls = call ∷ calls

-- The loop of `main`, for so many rounds at most: the calls, and the rest of the input.
unfoldable pub menu : List ℕ → ℕ → List ℕ → Option (List Command × List ℕ)
menu before zero input = none
menu before (suc fuel) input =
    let (ends, call, rest) = round before input in
    let later = menu before fuel rest in
    if ends
    then some ([], rest)
    else elim later [ none ↦ none | some (calls, rest') ↦ some (called call calls, rest') ]
