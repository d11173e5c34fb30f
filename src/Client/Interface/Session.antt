-- ===== src/Client/Interface/Session.antt =====
-- broker/client/client.c: a session that is typed in, and the calls that it comes to.
use sistemas_distribuid.Base.{
  ℕ, suc, ◌-◌, ◌<◌, ◌≡◌, refl, ap, ◌∙◌, pos, false, List, [], ◌∷◌, ◌++◌, length, Option, some,
  strtol, to_int, read_digits, arith,
}
use sistemas_distribuid.Ipc.Message.{max_topic_length, max_msg_length}
use sistemas_distribuid.Client.Interface.{
  read_input, Command, subscribe, publish, receive, newline, read_option, client_subscribe,
  client_send, round, called, menu,
}
use sistemas_distribuid.Client.Interface.Lines.{IsPlain, read_input-short}

-- The texts fit into their buffers, with the newline and the NUL.
abbrev pub Fits : List Command → Type 0
Fits [] = Unit {0}
Fits (subscribe topic ∷ calls) = IsPlain topic × (length topic < max_topic_length - 1) × Fits calls
Fits (publish message topic ∷ calls) =
    IsPlain topic
    × (length topic < max_topic_length - 1)
    × IsPlain message
    × (length message < max_msg_length - 1)
    × Fits calls
Fits (receive ∷ calls) = Fits calls

-- A line and what is typed behind it.
abbrev pub line : List ℕ → List ℕ → List ℕ
line text rest = text ++ newline ∷ rest

-- The lines that are typed for the calls, and the option that ends the session.
abbrev pub typed : List Command → List ℕ → List ℕ
typed [] rest = line (b'4' ∷ []) rest
typed (subscribe topic ∷ calls) rest = line (b'1' ∷ []) (line topic (typed calls rest))
typed (publish message topic ∷ calls) rest =
    line (b'2' ∷ []) (line topic (line message (typed calls rest)))
typed (receive ∷ calls) rest = line (b'3' ∷ []) (typed calls rest)

option-line :
    (before rest : List ℕ) (c n : ℕ)
    → IsPlain (c ∷ [])
    → strtol (c ∷ []) ≡ pos n
    → read_option before (line (c ∷ []) rest) ≡ (pos n, rest)
unfolding read_option
option-line before rest c n plain h =
    rw (read_input-short before (c ∷ []) rest 10 plain (omega arith), h) refl

subscribe-line :
    (before topic rest : List ℕ)
    → IsPlain topic
    → length topic < max_topic_length - 1
    → client_subscribe before (line topic rest) ≡ (subscribe topic, rest)
unfolding client_subscribe
subscribe-line before topic rest plain fits =
    rw (read_input-short before topic rest max_topic_length plain fits) refl

send-line :
    (before topic message rest : List ℕ)
    → IsPlain topic
    → length topic < max_topic_length - 1
    → IsPlain message
    → length message < max_msg_length - 1
    → client_send before (line topic (line message rest)) ≡ (publish message topic, rest)
unfolding client_send
send-line before topic message rest plain fits plain' fits' =
    let first = read_input-short before topic (line message rest) max_topic_length plain fits in
    let second = read_input-short before message rest max_msg_length plain' fits' in
    ap (λ r. let r' = read_input before max_msg_length r.1 in (publish r'.0 r.0, r'.1)) first
    ∙ ap (λ r. (publish r.0 topic, r.1)) second

-- The rounds for the options 1 to 4.
one : (before rest : List ℕ) → read_option before (line (b'1' ∷ []) rest) ≡ (pos 1, rest)
unfolding strtol read_digits to_int
one before rest = option-line before rest b'1' 1 (refl, refl, tt) refl

two : (before rest : List ℕ) → read_option before (line (b'2' ∷ []) rest) ≡ (pos 2, rest)
unfolding strtol read_digits to_int
two before rest = option-line before rest b'2' 2 (refl, refl, tt) refl

three : (before rest : List ℕ) → read_option before (line (b'3' ∷ []) rest) ≡ (pos 3, rest)
unfolding strtol read_digits to_int
three before rest = option-line before rest b'3' 3 (refl, refl, tt) refl

four : (before rest : List ℕ) → read_option before (line (b'4' ∷ []) rest) ≡ (pos 4, rest)
unfolding strtol read_digits to_int
four before rest = option-line before rest b'4' 4 (refl, refl, tt) refl

-- One round, and the later ones.
menu-round :
    (before input rest after : List ℕ) (fuel : ℕ) (call : Option Command) (calls : List Command)
    → round before input ≡ (false, call, rest)
    → menu before fuel rest ≡ some (calls, after)
    → menu before (suc fuel) input ≡ some (called call calls, after)
unfolding menu
menu-round before input rest after fuel call calls e h =
    rw (e, h) (ap (λ r. some (called r.1 calls, after)) e)

round-subscribe :
    (before topic rest : List ℕ)
    → IsPlain topic
    → length topic < max_topic_length - 1
    → round before (line (b'1' ∷ []) (line topic rest)) ≡ (false, some (subscribe topic), rest)
unfolding round
round-subscribe before topic rest plain fits =
    rw (one before (line topic rest), subscribe-line before topic rest plain fits) refl

round-publish :
    (before topic message rest : List ℕ)
    → IsPlain topic
    → length topic < max_topic_length - 1
    → IsPlain message
    → length message < max_msg_length - 1
    → round before (line (b'2' ∷ []) (line topic (line message rest)))
      ≡ (false, some (publish message topic), rest)
unfolding round
round-publish before topic message rest plain fits plain' fits' =
    rw
      (
        two before (line topic (line message rest)),
        send-line before topic message rest plain fits plain' fits',
      )
      refl

round-receive :
    (before rest : List ℕ) → round before (line (b'3' ∷ []) rest) ≡ (false, some receive, rest)
unfolding round
round-receive before rest = rw (three before rest) refl

menu-quit :
    (before rest : List ℕ) (fuel : ℕ)
    → menu before (suc fuel) (line (b'4' ∷ []) rest) ≡ some ([], rest)
unfolding menu round
menu-quit before rest fuel = rw (four before rest) refl

-- Where the lines for a list of calls are typed into the menu, each text without a NUL and fitting
-- into its buffer with the newline, and then the option that quits, the menu makes exactly those
-- calls in their order and leaves what is typed behind.
pub menu-typed :
    (before rest : List ℕ) (calls : List Command)
    → Fits calls
    → menu before (suc (length calls)) (typed calls rest) ≡ some (calls, rest)
menu-typed before rest [] h = menu-quit before rest 0
menu-typed before rest (subscribe topic ∷ calls) (plain, fits, h) =
    menu-round before _ _ rest (suc (length calls)) _ calls
      (round-subscribe before topic (typed calls rest) plain fits) (menu-typed before rest calls h)
menu-typed before rest (publish message topic ∷ calls) (plain, fits, plain', fits', h) =
    menu-round before _ _ rest (suc (length calls)) _ calls
      (round-publish before topic message (typed calls rest) plain fits plain' fits')
      (menu-typed before rest calls h)
menu-typed before rest (receive ∷ calls) h =
    menu-round before _ _ rest (suc (length calls)) _ calls
      (round-receive before (typed calls rest)) (menu-typed before rest calls h)
