-- ===== src/Agent/Events/Paging.antt =====
-- A client that reads the outbox of crates/amcp-agent/src/main.rs page by page, and the pages of an
-- event stream.
use mathlib.Core.List.{append_assoc}
use mathlib.Core.Path.{subst, ap₂}
use agent_memory_control_pla.Prelude.{
  ℕ, zero, suc, ◌+◌, ◌-◌, ◌≤◌, ◌<◌, String, ◌≡◌, refl, sym, ◌∙◌, ap, Bool, true, false, not, ◌&&◌,
  Option, none, some, List, [], ◌∷◌, ◌++◌, arith, length, take, drop, keep, last?, All, drop-append,
  take-append-drop, length-append, length-take, length-drop, All-take, All-keep_sound, max, min,
  ◌⊎◌, inl, inr, Bool-cases,
}
use agent_memory_control_pla.Prelude.Members.{In, All_map}
use agent_memory_control_pla.Prelude.Keyed.{Distinct, position-append}
use agent_memory_control_pla.Prelude.Texts.{contains}
use agent_memory_control_pla.Domain.Kinds.{Scope}
use agent_memory_control_pla.Domain.Records.{RuntimeEvent}
use agent_memory_control_pla.Agent.Events.{
  event_id, clamp, start_of, id_of, next_id, page_of, event_matches_scope, stream_page_of,
}

-- The client asks for pages of at most `limit` events, each behind the last event of the page before,
-- until a page is empty.
unfoldable pub join_pages :
    List RuntimeEvent → Option (List RuntimeEvent) → Option (List RuntimeEvent)
join_pages [] rest = some []
join_pages (event ∷ page) none = none
join_pages (event ∷ page) (some rest) = some (event ∷ (page ++ rest))

unfoldable pub read_all : ℕ → ℕ → Option String → List RuntimeEvent → Option (List RuntimeEvent)
unfolding join_pages
read_all zero limit after queued = none
read_all (suc fuel) limit after queued =
    let page = page_of after limit queued in
    let rest = read_all fuel limit (next_id page) queued in join_pages page rest

take-nil : (n : ℕ) → take {A = RuntimeEvent} n [] ≡ []
take-nil zero = refl
take-nil (suc n) = refl

-- The last event of a list that is not empty, and the events before it.
last_split :
    (x : RuntimeEvent) (xs : List RuntimeEvent)
    → (front : List RuntimeEvent) × (last : RuntimeEvent) × (x ∷ xs ≡ front ++ last ∷ [])
      × (last? (x ∷ xs) ≡ some last)
last_split x [] = ([], x, refl, refl)
last_split x (y ∷ xs) =
    let (front, last, split, found) = last_split y xs in (x ∷ front, last, ap (◌∷◌ x) split, found)

-- Behind the cursor of the events that were read, the events that were not read begin.
start_of-next_id :
    (read rest : List RuntimeEvent)
    → Distinct event_id (read ++ rest)
    → start_of (next_id read) (read ++ rest) ≡ length read
unfolding start_of
start_of-next_id [] rest d = refl
start_of-next_id (x ∷ xs) rest d =
    let (front, last, split, found) = last_split x xs in
    let whole : (x ∷ xs) ++ rest ≡ front ++ last ∷ rest =
      ap (λ l. l ++ rest) split ∙ append_assoc front (last ∷ []) rest in
    let here = position-append event_id front last rest (subst (Distinct event_id) whole d) in
    let count : length (x ∷ xs) ≡ length front + 1 =
      ap length split ∙ length-append front (last ∷ []) in
    let there : start_of (some last.event_id) (front ++ last ∷ rest) ≡ length (x ∷ xs) =
      rw (here, start_of) (omega arith) in
    ap₂ start_of (ap id_of found) whole ∙ there

last_append :
    (xs : List RuntimeEvent) (y : RuntimeEvent) (ys : List RuntimeEvent)
    → last? (xs ++ y ∷ ys) ≡ last? (y ∷ ys)
last_append [] y ys = refl
last_append (x ∷ []) y ys = refl
last_append (x ∷ x' ∷ xs) y ys = last_append (x' ∷ xs) y ys

page_of_rest :
    (read rest : List RuntimeEvent) (limit : ℕ)
    → Distinct event_id (read ++ rest)
    → page_of (next_id read) limit (read ++ rest) ≡ take (clamp 1 256 limit) rest
unfolding page_of
page_of_rest read rest limit d = rw (start_of-next_id read rest d, drop-append)

next_id-append :
    (read : List RuntimeEvent) (y : RuntimeEvent) (ys : List RuntimeEvent)
    → next_id (read ++ y ∷ ys) ≡ next_id (y ∷ ys)
next_id-append read y ys = ap id_of (last_append read y ys)

read_rest :
    (fuel limit : ℕ) (read rest : List RuntimeEvent)
    → Distinct event_id (read ++ rest)
    → length rest < fuel
    → read_all fuel limit (next_id read) (read ++ rest) ≡ some rest
unfolding read_all
read_rest zero limit read rest d h = absurd (omega arith)
read_rest (suc fuel) limit read [] d h =
    rw (page_of_rest read [] limit d, take-nil (clamp 1 256 limit))
read_rest (suc fuel) limit read (r ∷ rs) d h =
    let k = clamp 1 256 limit - 1 in
    let some_room : clamp 1 256 limit ≡ suc k = omega arith in
    let page : List RuntimeEvent = r ∷ take k rs in
    let first : page_of (next_id read) limit (read ++ r ∷ rs) ≡ page =
      page_of_rest read (r ∷ rs) limit d ∙ ap (λ n. take n (r ∷ rs)) some_room in
    let whole : read ++ r ∷ rs ≡ (read ++ page) ++ drop k rs =
      rw append_assoc (ap (λ l. read ++ r ∷ l) (sym (take-append-drop k rs))) in
    let ih =
      read_rest fuel limit (read ++ page) (drop k rs) (subst (Distinct event_id) whole d)
        (omega (arith, length-drop k rs)) in
    let later : read_all fuel limit (next_id page) (read ++ r ∷ rs) ≡ some (drop k rs) =
      rw (whole, ← next_id-append read r (take k rs)) ih in
    rw (first, later) (ap (λ l. some (r ∷ l)) (take-append-drop k rs))

-- A client that reads an outbox page by page, with any limit, reads every queued event once and in
-- order, and then meets an empty page, within one page more than there are events, if the ids of the
-- events are distinct and the outbox stays the same between the pages.
pub read_all_complete :
    (limit : ℕ) (queued : List RuntimeEvent)
    → Distinct event_id queued
    → read_all (suc (length queued)) limit none queued ≡ some queued
read_all_complete limit queued d = read_rest (suc (length queued)) limit [] queued d (omega arith)

-- A prefix that is not full is the whole list.
full_or_whole : {A : Type 0} (n : ℕ) (xs : List A) → (length (take n xs) ≡ n) ⊎ (take n xs ≡ xs)
full_or_whole zero xs = inl refl
full_or_whole (suc n) [] = inr refl
full_or_whole (suc n) (x ∷ xs) = elim (full_or_whole n xs) [
  | inl full ↦ inl (omega (arith, full))
  | inr whole ↦ inr (ap (◌∷◌ x) whole)
]

In-keep_cons :
    {A : Type 0} (p : A → Bool) (x y : A) (xs : List A) → In y (keep p xs) → In y (keep p (x ∷ xs))
In-keep_cons p x y xs h = elim (Bool-cases (p x)) [
  | inl kept ↦ rw kept (inr h)
  | inr dropped ↦ rw dropped h
]

dropped_or_kept :
    {A : Type 0} (p : A → Bool) (xs : List A) → All (λ x. (p x ≡ false) ⊎ In x (keep p xs)) xs
dropped_or_kept p [] = tt
dropped_or_kept p (x ∷ xs) = (
  elim (Bool-cases (p x)) [ inl kept ↦ inr (rw kept (inl refl)) | inr dropped ↦ inl dropped ],
  All_map (λ y h. elim h [ inl dropped ↦ inl dropped | inr k ↦ inr (In-keep_cons p x y xs k) ]) xs
      (dropped_or_kept p xs),
)

-- A page of an event stream has at most as many events as asked for, or one if none was asked for, and
-- never more than 64, all of them matching the scope and none of them sent before; and if it has fewer
-- than that, no queued event behind the cursor that matches the scope and was not sent is missing.
pub stream_page_fits :
    (payload_project : String → Option String) (after : Option String) (scope : Option Scope)
    (sent_ids : List String) (limit : ℕ) (events : List RuntimeEvent)
    → (length (stream_page_of payload_project after scope sent_ids limit events)
        ≤ min (max limit 1) 64)
      × All
          (λ event.
            (contains sent_ids event.event_id ≡ false)
            × (event_matches_scope payload_project event scope ≡ true))
          (stream_page_of payload_project after scope sent_ids limit events)
      × ((length (stream_page_of payload_project after scope sent_ids limit events)
            ≡ min (max limit 1) 64)
          ⊎ All
              (λ event.
                (contains sent_ids event.event_id ≡ true)
                ⊎ ((event_matches_scope payload_project event scope ≡ false)
                    ⊎ In event (stream_page_of payload_project after scope sent_ids limit events)))
              (drop (start_of after events) events))
unfolding stream_page_of
stream_page_fits payload_project after scope sent_ids limit events =
    let chosen : RuntimeEvent → Bool = λ event.
      not (contains sent_ids event.event_id) && event_matches_scope payload_project event scope in
    let queued = drop (start_of after events) events in
    let candidates = keep chosen queued in
    (
      omega (arith, length-take (clamp 1 64 limit) candidates),
      All-take _ (clamp 1 64 limit) candidates
          (All-keep_sound _ chosen (λ event h. ground arith) queued),
      elim (full_or_whole (clamp 1 64 limit) candidates) [
        | inl full ↦ inl (omega (arith, full))
        | inr whole ↦ inr (
            rw whole (
              All_map
                (λ event h. elim h [ inl dropped ↦ passed event dropped | inr k ↦ inr (inr k) ])
                queued (dropped_or_kept chosen queued)))
      ],
    )
  where
    passed :
        {B : Type 0} (event : RuntimeEvent)
        → (not (contains sent_ids event.event_id)
            && event_matches_scope payload_project event scope)
          ≡ false
        → (contains sent_ids event.event_id ≡ true)
          ⊎ ((event_matches_scope payload_project event scope ≡ false) ⊎ B)
    passed event dropped = elim (Bool-cases (contains sent_ids event.event_id)) [
      | inl sent ↦ inl sent
      | inr new ↦ inr (inl (ground (arith, dropped, new)))
    ]
