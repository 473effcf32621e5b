-- ===== src/App/RoomService/Create.antt =====
-- `CreateRoom` over a repository that keeps its contract.
use buzzweb_server.Common.{
  ℕ, zero, suc, ◌+◌, ◌≤◌, ◌<◌, ◌≡◌, refl, Bool, true, Option, none, some, ◌==◌, eq_iff, arith, ap,
  ◌∙◌, if◌then◌else◌, has_value, length, List, Option-cases, inl, inr, sym,
}
use mathlib.Core.Path.{fun_ext}
use native.Mathlib.Decide.{dec_lt}
use buzzweb_server.Common.Streams.{read_digits, value_from, text-IsNumeral}
use buzzweb_server.Domain.Room.{Room, RoomCode, RoomSecret, new_room}
use buzzweb_server.Domain.RoomRepository.{RoomRepository, Contract}
use buzzweb_server.App.Result.{ok, err}
use buzzweb_server.App.RoomServiceTypes.{
  CreateRoomResult, RoomServiceError, build_room_code_generation_failed_error,
}
use buzzweb_server.App.RoomService.{generate_room_code, create_attempts, create_room}

-- The first drawn code that is free, within the attempts that are left.
unfoldable pub create_spec :
    ℕ → ℕ → (ℕ → ℕ) → Option RoomSecret → (RoomCode → Option Room) → CreateRoomResult
create_spec zero attempt draw password stored = err build_room_code_generation_failed_error
create_spec (suc left) attempt draw password stored =
    let code = generate_room_code (draw attempt) in
    let rest = create_spec left (suc attempt) draw password stored in
    if has_value (stored code) then rest else ok (new_room code password)

abbrev pub stored_after : CreateRoomResult → (RoomCode → Option Room) → RoomCode → Option Room
stored_after (err e) stored j = stored j
stored_after (ok room) stored j = if room.code == j then some room else stored j

module _ {S : Type 0} {repository : RoomRepository S} {view : S → RoomCode → Option Room}
    (contract : Contract repository view) where
  pub create_attempts-refines :
      (left attempt : ℕ) (draw : ℕ → ℕ) (password : Option RoomSecret) (s : S)
      → ((create_attempts repository left attempt draw password s).0
          ≡ create_spec left attempt draw password (view s))
        × ((j : RoomCode)
            → view (create_attempts repository left attempt draw password s).1 j
              ≡ stored_after (create_spec left attempt draw password (view s)) (view s) j)
  unfolding create_attempts create_spec new_room
  create_attempts-refines zero attempt draw password s = (refl, λ j. refl)
  create_attempts-refines (suc left) attempt draw password s = (
    ground (
      arith,
      contract.add_outcome room s,
      (create_attempts-refines left (suc attempt) draw password s').0,
      same,
    ),
    λ j. ground (
      arith,
      eq_iff room.code j,
      contract.add_outcome room s,
      contract.add_view room s j,
      (create_attempts-refines left (suc attempt) draw password s').1 j,
      same,
    ),
  )
    where
      room : Room
      room = new_room (generate_room_code (draw attempt)) password

      s' : S
      s' = (repository.add room s).1

      same : has_value (view s room.code) ≡ true → view s' ≡ view s
      same taken = fun_ext λ j. ground (arith, eq_iff room.code j, contract.add_view room s j)

  pub create_room-refines :
      (draw : ℕ → ℕ) (password : Option RoomSecret) (s : S)
      → ((create_room repository draw password s).0 ≡ create_spec 100 0 draw password (view s))
        × ((j : RoomCode)
            → view (create_room repository draw password s).1 j
              ≡ stored_after (create_spec 100 0 draw password (view s)) (view s) j)
  unfolding create_room
  create_room-refines draw password s = create_attempts-refines 100 0 draw password s

module _ (draw : ℕ → ℕ) (password : Option RoomSecret) (stored : RoomCode → Option Room) where
  abbrev taken : ℕ → Bool
  taken i = has_value (stored (generate_room_code (draw i)))

  pub create_spec-ok :
      (left attempt : ℕ) (room : Room)
      → create_spec left attempt draw password stored ≡ ok room
      → (i : ℕ) × (attempt ≤ i)
        × (i < attempt + left)
        × (room ≡ new_room (generate_room_code (draw i)) password)
        × (stored (generate_room_code (draw i)) ≡ none)
  unfolding create_spec
  create_spec-ok zero attempt room e = cc
  create_spec-ok (suc left) attempt room e =
      elim (Option-cases (stored (generate_room_code (draw attempt)))) [
        | inl free ↦ (attempt, omega arith, omega arith, ground arith, free)
        | inr (other, here) ↦
            let (i, low, high, same, free) =
              create_spec-ok left (suc attempt) room (ground arith) in
            (i, omega arith, omega arith, same, free)
      ]

  pub create_spec-err :
      (left attempt : ℕ) (e : RoomServiceError)
      → create_spec left attempt draw password stored ≡ err e
      → (e ≡ build_room_code_generation_failed_error)
        × ((i : ℕ) → attempt ≤ i → i < attempt + left → taken i ≡ true)
  unfolding create_spec
  create_spec-err zero attempt e h = (ground arith, λ i low high. absurd (omega arith))
  create_spec-err (suc left) attempt e h =
      elim (Option-cases (stored (generate_room_code (draw attempt)))) [
        | inl free ↦ ground arith
        | inr (other, here) ↦
            let (same, all) = create_spec-err left (suc attempt) e (ground arith) in
            (
              same,
              λ i low high. elim (dec_lt attempt i) [
                | yes more ↦ all i more (omega arith)
                | no last ↦ let now : i ≡ attempt = omega arith in rw now (ap has_value here)
              ],
            )
      ]

module _ {S : Type 0} {repository : RoomRepository S} {view : S → RoomCode → Option Room}
    (contract : Contract repository view) (draw : ℕ → ℕ) (password : Option RoomSecret)
    (s : S) where
  -- A created room has a code that one of the hundred attempts drew and that no room had; it has
  -- the password that was given and no participants. It is stored, and all else stays as it was.
  pub create_room-ok :
      (room : Room)
      → (create_room repository draw password s).0 ≡ ok room
      → ((i : ℕ) × (i < 100)
          × (room ≡ new_room (generate_room_code (draw i)) password)
          × (view s (generate_room_code (draw i)) ≡ none))
        × ((j : RoomCode)
            → view (create_room repository draw password s).1 j
              ≡ (if room.code == j then some room else view s j))
  create_room-ok room e =
      let refines = create_room-refines contract draw password s in
      let (i, low, high, same, free) =
        create_spec-ok draw password (view s) 100 0 room (sym refines.0 ∙ e) in
      (
        (i, omega arith, same, free),
        λ j. refines.1 j ∙ ap (λ result. stored_after result (view s) j) (sym refines.0 ∙ e),
      )

  -- A creation fails only with the error for the codes, and only if each of the hundred attempts
  -- drew a code that was taken; nothing has changed then.
  pub create_room-err :
      (e : RoomServiceError)
      → (create_room repository draw password s).0 ≡ err e
      → (e ≡ build_room_code_generation_failed_error)
        × ((i : ℕ) → i < 100 → has_value (view s (generate_room_code (draw i))) ≡ true)
        × ((j : RoomCode) → view (create_room repository draw password s).1 j ≡ view s j)
  create_room-err e h =
      let refines = create_room-refines contract draw password s in
      let (same, all) = create_spec-err draw password (view s) 100 0 e (sym refines.0 ∙ h) in
      (
        same,
        λ i high. all i (omega arith) (omega arith),
        λ j. refines.1 j ∙ ap (λ result. stored_after result (view s) j) (sym refines.0 ∙ h),
      )

-- The code of a drawn number consists of six decimal digits, from `0` to `9`, which are the number
-- with zeros before it, so that different numbers have different codes.
pub generate_room_code_faithful :
    (drawn : ℕ)
    → drawn ≤ 999999
    → (ds : List ℕ) × (read_digits 10 (generate_room_code drawn) ≡ some ds)
      × (length ds ≡ 6)
      × (value_from 10 0 ds ≡ drawn)
unfolding generate_room_code
generate_room_code_faithful drawn h =
    text-IsNumeral 10 5 drawn (omega arith) (omega arith) (omega arith)
