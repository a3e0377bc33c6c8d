-- ===== src/Errors.antt =====
-- `perror` of zeos/libc.c. Each call of `write` passes a text, the zero behind it and what the memory
-- holds behind that, up to the size that it names.
use zeos_soa.Prelude.{ℕ, zero, suc, ◌+◌, List, [], ◌∷◌, ◌++◌, ◌==◌, if◌then◌else◌, take}
use zeos_soa.Prelude.Int.{pos}
use zeos_soa.Calls.{eagain, enomem, efault, einval}
use zeos_soa.Digits.{Chars, itoa, strlen}

-- `a[0]`, `a[1]`, ...
unfoldable pub chars_from : (rounds : ℕ) → Chars → (i : ℕ) → List ℕ
chars_from zero a i = []
chars_from (suc n) a i = a i ∷ chars_from n a (i + 1)

-- `write(1, "...", size)`: the bytes that are written.
unfoldable pub written : (text : List ℕ) → (size : ℕ) → (behind : List ℕ) → List ℕ
written text size behind = take size (text ++ 0 ∷ behind)

-- The bytes that `perror` writes, call by call. `buffer` is what its array held before, and has four
-- characters, enough for the numbers below 1000.
unfoldable pub perror : (errno : ℕ) → (behind : List ℕ) → (buffer : Chars) → List (List ℕ)
perror errno behind buffer =
    let b = itoa (pos errno) buffer in
    if errno == efault
    then written
        (b'B' ∷ b'a' ∷ b'd' ∷ b' ' ∷ b'a' ∷ b'd' ∷ b'd' ∷ b'r' ∷ b'e' ∷ b's' ∷ b's' ∷ b'\n' ∷ []) 13
        behind
      ∷ []
    else if errno == einval
    then written
        (b'I' ∷ b'n' ∷ b'v' ∷ b'a' ∷ b'l' ∷ b'i' ∷ b'd' ∷ b' ' ∷ b'a' ∷ b'r' ∷ b'g' ∷ b'u' ∷ b'm'
          ∷ b'e' ∷ b'n' ∷ b't' ∷ b'\n' ∷ [])
        15 behind
      ∷ []
    else if errno == enomem
    then written
        (b'O' ∷ b'u' ∷ b't' ∷ b' ' ∷ b'o' ∷ b'f' ∷ b' ' ∷ b'm' ∷ b'e' ∷ b'm' ∷ b'o' ∷ b'r' ∷ b'y'
          ∷ b'\n' ∷ [])
        15 behind
      ∷ []
    else if errno == eagain
    then written (b'T' ∷ b'r' ∷ b'y' ∷ b' ' ∷ b'a' ∷ b'g' ∷ b'a' ∷ b'i' ∷ b'n' ∷ b'\n' ∷ []) 15
        behind
      ∷ []
    else written
        (b'C' ∷ 195 ∷ 179 ∷ b'd' ∷ b'i' ∷ b'g' ∷ b'o' ∷ b' ' ∷ b'd' ∷ b'e' ∷ b' ' ∷ b'e' ∷ b'r'
          ∷ b'r' ∷ b'o' ∷ b'r' ∷ b':' ∷ b' ' ∷ [])
        19 behind
      ∷ chars_from (strlen 4 b) b 0
      ∷ written (b'\n' ∷ []) 1 behind
      ∷ []
