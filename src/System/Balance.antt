-- ===== src/System/Balance.antt =====
-- What the calls in a log acquire from the system and give back to it.
use partake.Prelude.{
  ℕ, ◌+◌, ◌-◌, ◌^◌, ◌≡◌, ◌≢◌, ◌&&◌, Bool, true, false, none, some, [], ◌∷◌, ◌==◌, hit, arith,
}
use partake.Text.{same_text}
use partake.System.{Text, Call, Answer, Log}

pub data Resource : Type 0 where
  descriptor : ℕ → Resource
  shm_name file_name : Text → Resource
  mapping : ℕ → Resource
  shm_id : ℕ → Resource
  attachment : ℕ → Resource
  handle : ℕ → Resource
  view : ℕ → Resource

abbrev pub returns : ℕ → Answer → Bool
returns n a = elim a.value [ none ↦ false | some v ↦ v == n ]

abbrev pub returned : Answer → Bool
returned a = elim a.value [ none ↦ false | some v ↦ true ]

abbrev pub acquires : Resource → Call → Answer → Bool
acquires (descriptor d) c a = elim c [
  | Call.shm_open n x ↦ returns d a
  | Call.open_file n x ↦ returns d a
  | _ ↦ false
]
acquires (shm_name m) c a = elim c [ Call.shm_open n x ↦ same_text n m && returned a | _ ↦ false ]
acquires (file_name m) c a = elim c [ Call.open_file n x ↦ same_text n m && returned a | _ ↦ false ]
acquires (mapping p) c a = elim c [ Call.mmap d n ↦ returns p a | _ ↦ false ]
acquires (shm_id i) c a = elim c [
  | Call.shmget k n x f ↦ returns i a
  | Call.shmget_existing k ↦ returns i a
  | _ ↦ false
]
acquires (attachment p) c a = elim c [ Call.shmat i ↦ returns p a | _ ↦ false ]
acquires (handle d) c a = elim c [
  | Call.open_process_token ↦ returns d a
  | Call.create_file n x ↦ returns d a
  | Call.create_file_mapping f n s x ↦ returns d a
  | _ ↦ false
]
acquires (view p) c a = elim c [ Call.map_view_of_file d n x ↦ returns p a | _ ↦ false ]

abbrev pub releases : Resource → Call → Bool
releases (descriptor d) c = elim c [ Call.close e ↦ e == d | _ ↦ false ]
releases (shm_name m) c = elim c [ Call.shm_unlink n ↦ same_text n m | _ ↦ false ]
releases (file_name m) c = elim c [ Call.unlink n ↦ same_text n m | _ ↦ false ]
releases (mapping p) c = elim c [ Call.munmap q n ↦ q == p | _ ↦ false ]
releases (shm_id i) c = elim c [ Call.shmctl_rmid j ↦ j == i | _ ↦ false ]
releases (attachment p) c = elim c [ Call.shmdt q ↦ q == p | _ ↦ false ]
releases (handle d) c = elim c [ Call.close_handle e ↦ e == d | _ ↦ false ]
releases (view p) c = elim c [ Call.unmap_view_of_file q ↦ q == p | _ ↦ false ]

-- How often the calls of a log acquire a resource, and how often they give it back.
abbrev pub acquired : Resource → Log → ℕ
acquired r [] = 0
acquired r ((c, a) ∷ log) = hit (acquires r c a) + acquired r log

abbrev pub released : Resource → Log → ℕ
released r [] = 0
released r ((c, a) ∷ log) = hit (releases r c) + released r log

-- Addresses have 64 bits, and -1 is MAP_FAILED.
abbrev pub map_failed : ℕ
map_failed = 2 ^ 64 - 1

-- No system has files or shared memory of no name, nor memory at the
-- null pointer or at MAP_FAILED, nor a handle that is null.
abbrev pub IsReal : Resource → Type 0
IsReal (descriptor d) = Unit {0}
IsReal (shm_name n) = n ≢ []
IsReal (file_name n) = n ≢ []
IsReal (mapping p) = (p ≢ 0) × (p ≢ map_failed)
IsReal (shm_id i) = Unit {0}
IsReal (attachment p) = p ≢ 0
IsReal (handle d) = d ≢ 0
IsReal (view p) = (p ≢ 0) × (p ≢ map_failed)

-- From one log to a later one, a resource is acquired `n` times more often than it is given back.
abbrev pub Gains : Resource → ℕ → Log → Log → Type 0
Gains r n log log' = acquired r log' + released r log ≡ acquired r log + released r log' + n

abbrev pub Loses : Resource → ℕ → Log → Log → Type 0
Loses r n log log' = acquired r log' + released r log + n ≡ acquired r log + released r log'

-- The calls that acquire nothing.
abbrev pub is_quiet : Call → Bool
is_quiet c = elim c [
  | Call.shm_open n x ↦ false
  | Call.open_file n x ↦ false
  | Call.mmap d n ↦ false
  | Call.shmget k n x f ↦ false
  | Call.shmget_existing k ↦ false
  | Call.shmat i ↦ false
  | Call.open_process_token ↦ false
  | Call.create_file n x ↦ false
  | Call.create_file_mapping f n s x ↦ false
  | Call.map_view_of_file d n x ↦ false
  | _ ↦ true
]

pub acquires-quiet :
    (r : Resource) (c : Call) (a : Answer) → is_quiet c ≡ true → acquires r c a ≡ false
acquires-quiet (descriptor d) c a q = ground arith
acquires-quiet (shm_name m) c a q = ground arith
acquires-quiet (file_name m) c a q = ground arith
acquires-quiet (mapping p) c a q = ground arith
acquires-quiet (shm_id i) c a q = ground arith
acquires-quiet (attachment p) c a q = ground arith
acquires-quiet (handle p) c a q = ground arith
acquires-quiet (view p) c a q = ground arith

-- The calls that give nothing back.
abbrev is_mute : Call → Bool
is_mute c = elim c [
  | Call.shm_unlink n ↦ false
  | Call.unlink n ↦ false
  | Call.close d ↦ false
  | Call.munmap p n ↦ false
  | Call.shmctl_rmid i ↦ false
  | Call.shmdt p ↦ false
  | Call.unmap_view_of_file p ↦ false
  | Call.close_handle d ↦ false
  | _ ↦ true
]

pub releases-mute : (r : Resource) (c : Call) → is_mute c ≡ true → releases r c ≡ false
releases-mute (descriptor d) c q = ground arith
releases-mute (shm_name m) c q = ground arith
releases-mute (file_name m) c q = ground arith
releases-mute (mapping p) c q = ground arith
releases-mute (shm_id i) c q = ground arith
releases-mute (attachment p) c q = ground arith
releases-mute (handle p) c q = ground arith
releases-mute (view p) c q = ground arith
