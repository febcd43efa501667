-- ===== src/Shell/Tests.antt =====
-- A container whose user has the ID 1000.
use che_machine_exec.Common.{
  ℕ, ◌≡◌, refl, Text, codes, text_eq, is_empty, split, Bool, false, ◌&&◌, Option, none, some, List,
  [], ◌∷◌, In, leb, if◌then◌else◌,
}
use che_machine_exec.Shell.{digits_of, detect_shell}
use che_machine_exec.Shell.Laws.{IsLineOf, detect_shell_sound}

abbrev is_ascii_digit : ℕ → Bool
is_ascii_digit c = leb 48 c && leb c 57

abbrev run : List Text → Option Text
run [] = none
run (name ∷ rest) =
    if text_eq name (codes "id")
    then some (codes "1000\n")
    else some (codes "root:x:0:0:root:/root:/bin/bash\nuser:x:1000:0:A user:/home/user:/bin/zsh\n")

shell_of_user :
    (id : Text) × (passwd : Text) × (run (codes "id" ∷ codes "-u" ∷ []) ≡ some id)
    × (run (codes "cat" ∷ codes "/etc/passwd" ∷ []) ≡ some passwd)
    × (is_empty (digits_of is_ascii_digit id) ≡ false)
    × (is_empty (codes "/bin/zsh") ≡ false)
    × ((line : Text) × In line (split b'\n' passwd)
        × IsLineOf (digits_of is_ascii_digit id) (codes "/bin/zsh") line)
unfolding detect_shell text_eq
shell_of_user = detect_shell_sound is_ascii_digit run (codes "/bin/zsh") refl
