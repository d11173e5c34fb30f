-- ===== src/Sockets.antt =====
-- sockets/server.c and client.c: what a child answers to a client, and what the client makes of it.
pub mod Vowels
pub mod Exchange
pub mod Processes
pub mod Client
use sistemas_distribuid.Base.{
  text, take, ℕ, zero, suc, ℤ, pos, negsuc, minus_one, is_neg, ◌==◌, ltb, if◌then◌else◌, Bool, true,
  false, ◌||◌, List, [], ◌∷◌, ◌++◌, length, set, drop, Option, none, some,
}

-- `sizeof(buffer) / sizeof(char)`, and the bound of the loop.
abbrev pub buffer_size : ℕ
buffer_size = 100

-- `str[i]`
abbrev pub nth : List ℕ → ℕ → ℕ
nth [] i = 0
nth (c ∷ cs) zero = c
nth (c ∷ cs) (suc i) = nth cs i

abbrev pub is_vowel : ℕ → Bool
is_vowel c =
    c == b'a'
    || c == b'A'
    || c == b'e'
    || c == b'E'
    || c == b'i'
    || c == b'I'
    || c == b'o'
    || c == b'O'
    || c == b'u'
    || c == b'U'

-- The loop, with the number of rounds left, `i` and `j`: the last `j`, and the buffer.
unfoldable pub compact : ℕ → ℕ → ℕ → List ℕ → ℕ × List ℕ
compact zero i j str = (j, str)
compact (suc rounds) i j str = elim (is_vowel (nth str i)) [
  | true ↦ compact rounds (suc i) j str
  | false ↦ compact rounds (suc i) (suc j) (set str j (nth str i))
]

-- The NUL behind the characters that are kept, if there is room.
unfoldable pub terminate : ℕ × List ℕ → List ℕ
terminate (j, str) = if ltb j buffer_size then set str j 0 else str

unfoldable pub remove_vowels : List ℕ → List ℕ
remove_vowels str = terminate (compact buffer_size 0 0 str)

-- A result of `read` that is no error.
abbrev pub count : ℤ → ℕ
count (pos n) = n
count (negsuc n) = 0

-- What a child runs: the status, and the buffer that it writes. `read` and `write` are the results
-- of those calls; behind the bytes that were received the buffer holds what was there before.
unfoldable pub respond : ℤ → List ℕ → List ℕ → ℤ → ℤ × Option (List ℕ)
respond read received before write =
    if is_neg read
    then (minus_one, none)
    else let buffer = remove_vowels (received ++ drop (length received) before) in
      if is_neg write then (minus_one, none) else (pos 0, some buffer)

-- The client from its `write` on, with the results of `write` and `read`: the text that it prints.
-- `answer` is what the server has written, of which `read` stores so many bytes in `msg`, that is
-- `argv[1]`, and the NUL behind it stays.
unfoldable pub print_answer : List ℕ → ℤ → ℤ → List ℕ → Option (List ℕ)
print_answer msg write read answer =
    if is_neg write
    then none
    else if is_neg read
    then none
    else (let stored = take (count read) answer in
        some (text (stored ++ drop (length stored) (msg ++ 0 ∷ []))))
