-- ===== src/NetworkApi/Arcs.antt =====
-- src/routes/kitsune.rs: what the form of an arc in a response tells.
use h2hc_linker.Base.{
  ℕ, ◌≡◌, refl, false, Option, none, some, arith, if◌then◌else◌, ◌==◌, nat_eq, nat_beq_iff,
  string_eq, Bool-cases, inl, inr,
}
use h2hc_linker.NetworkApi.{DhtArc, empty, arc, u32_max, StorageArcResponse, is_full, arc_response}

abbrev pub both : Option ℕ → Option ℕ → Option DhtArc
both (some start) (some end_loc) = some (arc start end_loc)
both _ _ = none

-- The arc that a response stands for, with the end of the arc in the field for its length.
unfoldable pub read_arc : StorageArcResponse → Option DhtArc
read_arc response =
    if response.arc_type == "empty"
    then some empty
    else if response.arc_type == "full"
    then some (arc 0 u32_max)
    else both response.start response.length_of

-- The form of an arc in a response determines the arc, when the field for its length is read as the
-- location of its end, which is what it carries; an arc that is not full is shown with its two
-- bounds, and only the arc over all locations as full.
pub read_arc-arc_response :
    (a : DhtArc)
    → (read_arc (arc_response a) ≡ some a)
      × ((start end_loc : ℕ)
          → a ≡ arc start end_loc
          → is_full start end_loc ≡ false
          → (arc_response a).length_of ≡ some end_loc)
unfolding read_arc arc_response
read_arc-arc_response empty = (refl, λ s e h x. absurd (ground (arith, h)))
read_arc-arc_response (arc start end_loc) = (
  elim (Bool-cases (is_full start end_loc)) [
    | inl e ↦ rw e (ground (arith, e, nat_beq_iff start 0, nat_beq_iff end_loc u32_max))
    | inr e ↦ rw e refl
  ],
  λ s e h x. ground (arith, h, x),
)
