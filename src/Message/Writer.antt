-- ===== src/Message/Writer.antt =====
-- common/message.hpp: `async_message_writer`. A buffer is known by its size; `completions` are what
-- the completion handler was called with, in order.
use partake.Prelude.{
  ℕ, suc, ◌+◌, ◌≡◌, refl, Bool, true, false, List, [], ◌∷◌, ◌++◌, leb, ◌==◌, if◌then◌else◌, length,
  length-append, arith, ◌∙◌, ap,
}
use partake.Message.{round_size_up_to_alignment}

-- How the write of a message ended: well, with the error of the write, or canceled.
pub data Completion : Type 0 where
  written error canceled : Completion

pub record Writer : Type 0 where
  pub write_next : List ℕ
  pub being_written : List ℕ
  pub completions : List Completion

abbrev pub is_nil : List ℕ → Bool
is_nil [] = true
is_nil (x ∷ xs) = false

-- `start_writing`, when no write is in progress.
abbrev start_writing : Writer → Writer
start_writing w = record w { write_next = []; being_written = w.write_next }

-- `async_write_message`. The completion of an empty message comes without any write.
unfoldable pub async_write_message : ℕ → Writer → Writer
async_write_message size w =
    if size == 0
    then record w { completions = w.completions ++ written ∷ [] }
    else (let w' = record w { write_next = w.write_next ++ size ∷ [] } in
        if is_nil w'.being_written then start_writing w' else w')

-- The loop over `end_offsets`, which start at `offset`; `had_error` says that the error was
-- reported.
unfoldable pub complete : ℕ → ℕ → Bool → List ℕ → List Completion
complete bytes_written offset had_error [] = []
complete bytes_written offset had_error (size ∷ sizes) =
    let end_offset = offset + round_size_up_to_alignment size in
    let rest = complete bytes_written end_offset had_error sizes in
    let rest_after_error = complete bytes_written end_offset true sizes in
    if leb end_offset bytes_written
    then written ∷ rest
    else if had_error
    then canceled ∷ rest_after_error
    else error ∷ rest_after_error

unfoldable pub cancel_all : List ℕ → List Completion
cancel_all [] = []
cancel_all (size ∷ sizes) = canceled ∷ cancel_all sizes

-- The handler of a write of so many bytes, with an error or not.
unfoldable pub on_written : ℕ → Bool → Writer → Writer
unfolding complete cancel_all
on_written bytes_written has_error w =
    let completions = w.completions ++ complete bytes_written 0 false w.being_written in
    if has_error
    then record {
      write_next = [];
      being_written = [];
      completions = completions ++ cancel_all w.write_next;
    }
    else (let w' = record w { being_written = []; completions = completions } in
        if is_nil w.write_next then w' else start_writing w')

length-complete :
    (bytes offset : ℕ) (b : Bool) (sizes : List ℕ)
    → length (complete bytes offset b sizes) ≡ length sizes
unfolding complete
length-complete bytes offset b [] = refl
length-complete bytes offset b (size ∷ sizes) = ground (
  arith,
  length-complete bytes (offset + round_size_up_to_alignment size) b sizes,
  length-complete bytes (offset + round_size_up_to_alignment size) true sizes,
)

length-cancel_all : (sizes : List ℕ) → length (cancel_all sizes) ≡ length sizes
unfolding cancel_all
length-cancel_all [] = refl
length-cancel_all (size ∷ sizes) = ap suc (length-cancel_all sizes)

-- The messages that were given to the writer and are not complete yet.
abbrev pub in_flight : Writer → ℕ
in_flight w = length w.being_written + length w.write_next

pub data Reach : ℕ → Writer → Type 0 where
  started : Reach 0 (record { write_next = []; being_written = []; completions = [] })
  given : {n : ℕ} {w : Writer} (size : ℕ) → Reach n w → Reach (suc n) (async_write_message size w)
  wrote :
      {n : ℕ} {w : Writer} (bytes : ℕ) (has_error : Bool)
      → Reach n w
      → Reach n (on_written bytes has_error w)

is_nil-length : (l : List ℕ) → is_nil l ≡ true → length l ≡ 0
is_nil-length [] e = refl
is_nil-length (x ∷ l) e = absurd (ground arith)

is_nil-eq : (l : List ℕ) → is_nil l ≡ true → l ≡ []
is_nil-eq [] e = refl
is_nil-eq (x ∷ l) e = absurd (ground arith)

is_nil-append : (l : List ℕ) (x : ℕ) → is_nil (l ++ x ∷ []) ≡ false
is_nil-append [] x = refl
is_nil-append (y ∷ l) x = refl

in_flight-async_write :
    (size : ℕ) (w : Writer)
    → length (async_write_message size w).completions + in_flight (async_write_message size w)
      ≡ suc (length w.completions + in_flight w)
unfolding async_write_message
in_flight-async_write size w = ground (
  arith,
  length-append w.completions (written ∷ []),
  length-append w.write_next (size ∷ []),
  is_nil-length w.being_written,
)

in_flight-on_written :
    (bytes : ℕ) (b : Bool) (w : Writer)
    → length (on_written bytes b w).completions + in_flight (on_written bytes b w)
      ≡ length w.completions + in_flight w
unfolding on_written
in_flight-on_written bytes b w = ground (
  arith,
  length-append w.completions (complete bytes 0 false w.being_written),
  length-append (w.completions ++ complete bytes 0 false w.being_written) (cancel_all w.write_next),
  length-complete bytes 0 false w.being_written,
  length-cancel_all w.write_next,
  is_nil-length w.write_next,
)

-- Every message that is given to the writer completes once, or is still in flight.
Reach-completions : {n : ℕ} {w : Writer} → Reach n w → length w.completions + in_flight w ≡ n
Reach-completions started = refl
Reach-completions (given {w = w} size r) =
    in_flight-async_write size w ∙ ap suc (Reach-completions r)
Reach-completions (wrote {w = w} bytes b r) = in_flight-on_written bytes b w ∙ Reach-completions r

-- When no write is in progress, no message is left to write.
Reach-progress :
    {n : ℕ} {w : Writer} → Reach n w → is_nil w.being_written ≡ true → w.write_next ≡ []
unfolding async_write_message on_written
Reach-progress started e = refl
Reach-progress (given {w = w} size r) e =
    ground (arith, Reach-progress r, is_nil-append w.write_next size)
Reach-progress (wrote {w = w} bytes b r) e = ground (arith, is_nil-eq w.write_next)

-- Every message that is given to the writer completes once, or is still in flight; and when no
-- write is in progress, none is left to write.
pub Reach-served :
    {n : ℕ} {w : Writer}
    → Reach n w
    → (length w.completions + in_flight w ≡ n) × (is_nil w.being_written ≡ true → w.write_next ≡ [])
Reach-served r = (Reach-completions r, Reach-progress r)
