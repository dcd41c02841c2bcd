-- ===== src/Runtime/Podman/Reading.antt =====
-- The command line of runtime/podman.py, read back the way `podman run` documents it: options, some
-- with a value in the next word, up to the first word that is no option, which is the image; the
-- rest is the command of the container.
use codex_cursor_devstack.Base.{
  same_codes, codes-append, ◌≡◌, refl, String, ◌<>◌, Bool, true, false, ◌&&◌, ◌||◌, Option, none,
  some, List, [], ◌∷◌, ◌++◌, ◌==◌, str_eq, codes, ℕ, if◌then◌else◌,
}

-- One option: `flag` stands in one word, `valued` takes the next word too.
pub data RunOption : Type 0 where
  flag : String → RunOption
  valued : String → String → RunOption

pub record RunRequest : Type 0 where
  pub options : List RunOption
  pub image : String
  pub command : List String

-- `w in options`, by the code points
unfoldable pub is_among : List String → List ℕ → Bool
unfolding same_codes
is_among [] cs = false
is_among (s ∷ ss) cs = same_codes cs (codes s) || is_among ss cs

unfoldable pub is_valued : List ℕ → Bool
unfolding is_among
is_valued cs = is_among ("-v" ∷ "-e" ∷ "-w" ∷ "--user" ∷ "--tmpfs" ∷ "--cidfile" ∷ []) cs

unfoldable pub takes_value : String → Bool
unfolding is_valued
takes_value w = is_valued (codes w)

abbrev pub dashed : List ℕ → Bool
dashed [] = false
dashed (c ∷ cs) = c == b'-'

unfoldable pub starts_dash : String → Bool
starts_dash w = dashed (codes w)

unfoldable pub add_option : RunOption → Option RunRequest → Option RunRequest
add_option o none = none
add_option o (some r) = some (record r { options = o ∷ r.options })

-- The words after `podman run`.
unfoldable pub read_options : List String → Option RunRequest
unfolding takes_value starts_dash add_option
read_options [] = none
read_options (w ∷ []) =
    if starts_dash w then none else some (record { options = []; image = w; command = [] })
read_options (w ∷ v ∷ rest) =
    let with_value = add_option (valued w v) (read_options rest) in
    let alone = add_option (flag w) (read_options (v ∷ rest)) in
    if takes_value w
    then with_value
    else if starts_dash w
    then alone
    else some (record { options = []; image = w; command = v ∷ rest })

unfoldable pub read_run : List String → Option RunRequest
unfolding read_options
read_run (a ∷ b ∷ rest) = if str_eq a "podman" && str_eq b "run" then read_options rest else none
read_run _ = none

unfoldable pub prepend : List RunOption → Option RunRequest → Option RunRequest
unfolding add_option
prepend [] r = r
prepend (o ∷ os) r = add_option o (prepend os r)

pub prepend-append :
    (os qs : List RunOption) (r : Option RunRequest)
    → prepend (os ++ qs) r ≡ prepend os (prepend qs r)
unfolding prepend
prepend-append [] qs r = refl
prepend-append (o ∷ os) qs r = rw (prepend-append os qs r) refl

pub prepend-some :
    (os : List RunOption) (image : String) (command : List String)
    → prepend os (some (record { options = []; image = image; command = command }))
      ≡ some (record { options = os; image = image; command = command })
unfolding prepend add_option
prepend-some [] image command = refl
prepend-some (o ∷ os) image command = rw (prepend-some os image command) refl

-- A word that is an option by itself.
pub record IsFlag (w : String) : Type 0 where
  pub alone : takes_value w ≡ false
  pub dash : starts_dash w ≡ true

pub read_flag :
    (w : String) (rest : List String)
    → IsFlag w
    → read_options (w ∷ rest) ≡ add_option (flag w) (read_options rest)
unfolding read_options add_option
read_flag w [] h = rw h.dash refl
read_flag w (v ∷ rest) h = rw (h.alone, h.dash) refl

pub read_valued :
    (w v : String) (rest : List String)
    → takes_value w ≡ true
    → read_options (w ∷ v ∷ rest) ≡ add_option (valued w v) (read_options rest)
unfolding read_options
read_valued w v rest h = rw h refl

is_valued-dashed : (cs : List ℕ) → dashed cs ≡ false → is_valued cs ≡ false
unfolding is_valued is_among same_codes
is_valued-dashed [] h = refl
is_valued-dashed (c ∷ cs) h = rw h refl

takes_value-starts_dash : (w : String) → starts_dash w ≡ false → takes_value w ≡ false
unfolding takes_value starts_dash
takes_value-starts_dash w h = is_valued-dashed (codes w) h

-- `--name=` and any text is an option by itself.
pub join-IsFlag :
    (s t : String)
    → ((cs : List ℕ) → is_valued (codes s ++ cs) ≡ false)
    → ((cs : List ℕ) → dashed (codes s ++ cs) ≡ true)
    → IsFlag (s <> t)
unfolding takes_value starts_dash
join-IsFlag s t alone dash = record {
  alone = rw (codes-append s t) (alone (codes t));
  dash = rw (codes-append s t) (dash (codes t));
}

pub read_image :
    (image : String) (command : List String)
    → starts_dash image ≡ false
    → read_options (image ∷ command)
      ≡ some (record { options = []; image = image; command = command })
unfolding read_options
read_image image [] h = rw h refl
read_image image (v ∷ rest) h = rw (takes_value-starts_dash image h, h) refl
