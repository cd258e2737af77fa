-- ===== src/Client/Tests/Activities.antt =====
-- People at a computer.
use openscreentime.Common.{◌*◌, ◌≡◌, refl, true, false, some, [], ◌∷◌, ◌++◌, is_some}
use openscreentime.Common.Text.{Text, codes}
use openscreentime.Client.Activity.{
  second, Session, at_seat, parse_sessions, present, present_from, counts, billable, Probe, sample,
  idle,
}
use openscreentime.Client.Activity.Seated.{listed, seated}
use openscreentime.Client.Activity.Counts.{counts_for, sample-listed}

abbrev newline : Text
newline = b'\n' ∷ []

abbrev output : Text
output =
    codes "Name=kid"
    ++ newline
    ++ codes "Seat=seat0"
    ++ newline
    ++ codes "Class=user"
    ++ newline
    ++ codes "State=active"
    ++ newline
    ++ codes "Active=yes"
    ++ newline
    ++ newline
    ++ codes "Name=ssh"
    ++ newline
    ++ codes "Active=yes"
    ++ newline

abbrev kid : Session
kid = record {
  user = codes "kid";
  seat = codes "seat0";
  class = codes "user";
  state = codes "active";
  active = true;
}

abbrev ssh : Session
ssh = record { user = codes "ssh"; seat = []; class = []; state = []; active = true }

parsed : parse_sessions output ≡ kid ∷ ssh ∷ []
unfolding parse_sessions
parsed = refl

-- Two sessions of one person, no input for seven minutes, and no sound.
abbrev probe : Probe
probe = record {
  sessions = kid ∷ ssh ∷ kid ∷ [];
  input_idle = λ seat. some (7 * 60 * second);
  audio_playing = false;
}

abbrev noisy : Probe
noisy = record probe { audio_playing = true }

sampled : (sample probe).billable ≡ []
unfolding sample present present_from at_seat billable counts
sampled = refl

sample-listed_example :
    (listed (codes "kid") (sample noisy).billable ≡ counts_for noisy (codes "kid"))
    × (listed (codes "kid") (sample noisy).present ≡ is_some (seated noisy.sessions (codes "kid")))
sample-listed_example = sample-listed noisy (codes "kid")

-- The tracker knows the seat, and the last input there was two seconds ago.
tracked :
    idle
      (record {
        last = (codes "seat0", 3 * second) ∷ [];
        watching = (codes "event3", codes "seat0") ∷ [];
      })
      (codes "seat0")
      (5 * second)
    ≡ some (2 * second)
unfolding idle
tracked = refl
