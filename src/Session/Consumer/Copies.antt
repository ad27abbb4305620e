-- ===== src/Session/Consumer/Copies.antt =====
-- About what the consumer gets.
use ezviz_stream_bridge.Prelude.{
  ℕ, ◌+◌, ◌≡◌, refl, sym, ap, ◌∙◌, Bool, true, false, not, ◌&&◌, ◌||◌, Option, none, some, List, [],
  ◌∷◌, ◌++◌, Bytes, arith, length, length-append, append_assoc, append-nil, is_some, if◌then◌else◌,
}
use mathlib.Core.Path.{subst}
use ezviz_stream_bridge.Session.Prefix.{some_bytes}
use ezviz_stream_bridge.Session.Accept.{first_video}
use ezviz_stream_bridge.Session.Consumer.{
  Select, unselectable, idle, ready, Turn, Output, new_output, Copied, copying, returned, broken,
  write_chunk, select_round, copy_round, go_on, pump_ffmpeg_to_consumer,
}

-- A round after which the loop is left: it is cancelled, there is nothing to select or to read any
-- more, or the consumer fails.
abbrev pub is_end : Select → Bool → Bool
is_end unselectable fails = true
is_end idle fails = false
is_end (ready []) fails = true
is_end (ready (b ∷ rest)) fails = fails

abbrev pub stops : Turn → Bool
stops round = round.cancelled || is_end round.selected round.consumer_fails

abbrev pub some_stops : List Turn → Bool
some_stops [] = false
some_stops (round ∷ rounds) = stops round || some_stops rounds

abbrev pub chunk_of : Select → Bytes
chunk_of unselectable = []
chunk_of idle = []
chunk_of (ready chunk) = chunk

-- FFmpeg's output up to the first round after which the loop is left.
abbrev pub output_before_stop : List Turn → Bytes
output_before_stop [] = []
output_before_stop (round ∷ rounds) =
    if stops round then [] else chunk_of round.selected ++ output_before_stop rounds

abbrev pub output_of : Copied → Output
output_of (copying out) = out
output_of (returned out) = out
output_of (broken out) = out

abbrev pub is_copying : Copied → Bool
is_copying (copying out) = true
is_copying (returned out) = false
is_copying (broken out) = false

-- The metrics agree with what the consumer got.
pub record IsCounted (out : Output) : Type 0 where
  pub counted : out.bytes_out ≡ length out.consumed
  pub stamped : (some_bytes out.consumed && not (is_some out.first_byte_at)) ≡ false

-- The loop from `out` on.
record Copies (rounds : List Turn) (out : Output) (copied : Copied) : Type 0 where
  consumed : (output_of copied).consumed ≡ out.consumed ++ output_before_stop rounds
  agrees : IsCounted (output_of copied)
  goes_on : is_copying copied ≡ not (some_stops rounds)

-- What one round does.
data Rounded (round : Turn) (out : Output) : Copied → Type 0 where
  ends :
      (copied : Copied)
      → stops round ≡ true
      → (output_of copied).consumed ≡ out.consumed
      → IsCounted (output_of copied)
      → is_copying copied ≡ false
      → Rounded round out copied
  continues :
      (out' : Output)
      → stops round ≡ false
      → out'.consumed ≡ out.consumed ++ chunk_of round.selected
      → IsCounted out'
      → Rounded round out (copying out')

is_some-first_video : (o : Option ℕ) (time : ℕ) → is_some (first_video o time) ≡ true
is_some-first_video none time = refl
is_some-first_video (some t) time = refl

masked_off : (a b : Bool) → b ≡ true → (a && not b) ≡ false
masked_off a b e = ground (arith, e)

stops_as :
    (round : Turn) (c : Bool) (s : Select) (f : Bool)
    → round.cancelled ≡ c
    → round.selected ≡ s
    → round.consumer_fails ≡ f
    → stops round ≡ (c || is_end s f)
stops_as round c s f e1 e2 e3 =
    ap (λ b. b || is_end round.selected round.consumer_fails) e1
    ∙ ap (λ t. c || is_end t round.consumer_fails) e2
    ∙ ap (λ b. c || is_end s b) e3

chunk-Rounded :
    (round : Turn) (b : ℕ) (rest : Bytes) (out : Output)
    → round.cancelled ≡ false
    → round.selected ≡ ready (b ∷ rest)
    → IsCounted out
    → Rounded round out (write_chunk round (b ∷ rest) out)
chunk-Rounded round b rest out live e h = go round.consumer_fails refl
  where
    stamp : is_some (first_video out.first_byte_at round.elapsed) ≡ true
    stamp = is_some-first_video out.first_byte_at round.elapsed

    go :
        (fails : Bool)
        → round.consumer_fails ≡ fails
        → (let stamped : Output = record out {
          first_byte_at = first_video out.first_byte_at round.elapsed;
        } in
            Rounded round out (
              if fails
              then broken stamped
              else copying (record stamped {
                bytes_out = out.bytes_out + length (b ∷ rest);
                consumed = out.consumed ++ (b ∷ rest);
              })))
    go true f =
        ends _ (stops_as round false (ready (b ∷ rest)) true live e f) refl
          (record { counted = h.counted; stamped = masked_off _ _ stamp }) refl
    go false f =
        continues _ (stops_as round false (ready (b ∷ rest)) false live e f)
          (ap (λ t. out.consumed ++ chunk_of t) (sym e))
          (record {
            counted =
                ap (λ n. n + length (b ∷ rest)) h.counted
                ∙ sym (length-append out.consumed (b ∷ rest));
            stamped = masked_off _ _ stamp;
          })

select-Rounded :
    (round : Turn) (s : Select) (out : Output)
    → round.cancelled ≡ false
    → round.selected ≡ s
    → IsCounted out
    → Rounded round out (select_round round s out)
select-Rounded round unselectable out live e h =
    ends _ (stops_as round false unselectable _ live e refl) refl h refl
select-Rounded round idle out live e h =
    continues out (stops_as round false idle _ live e refl)
      (sym (append-nil out.consumed) ∙ ap (λ t. out.consumed ++ chunk_of t) (sym e)) h
select-Rounded round (ready []) out live e h =
    ends _ (stops_as round false (ready []) _ live e refl) refl h refl
select-Rounded round (ready (b ∷ rest)) out live e h = chunk-Rounded round b rest out live e h

round-Rounded :
    (round : Turn) (out : Output) → IsCounted out → Rounded round out (copy_round round out)
round-Rounded round out h = go round.cancelled refl
  where
    go :
        (c : Bool)
        → round.cancelled ≡ c
        → Rounded round out (if c then returned out else select_round round round.selected out)
    go true e = ends _ (stops_as round true _ _ e refl refl) refl h refl
    go false e = select-Rounded round round.selected out e refl h

on_stop : {A : Type 0} (b c : Bool) (x y : A) → b ≡ c → (if b then x else y) ≡ (if c then x else y)
on_stop b c x y e = ap (λ b. if b then x else y) e

ended :
    (copied : Copied) (again : Output → Copied)
    → is_copying copied ≡ false
    → go_on copied again ≡ copied
ended (copying out) again e = cc
ended (returned out) again e = refl
ended (broken out) again e = refl

first-Copies :
    (round : Turn) (rounds : List Turn) (out : Output) (copied : Copied)
    → Rounded round out copied
    → ((out' : Output) → IsCounted out' → Copies rounds out' (pump_ffmpeg_to_consumer rounds out'))
    → Copies (round ∷ rounds) out (go_on copied (pump_ffmpeg_to_consumer rounds))
first-Copies round rounds out copied_ (ends copied stop same h over) later =
    subst (Copies (round ∷ rounds) out) (sym (ended copied (pump_ffmpeg_to_consumer rounds) over))
      (record {
        consumed =
            same
            ∙ sym (append-nil out.consumed)
            ∙ ap (λ t. out.consumed ++ t) (sym (on_stop (stops round) true _ _ stop));
        agrees = h;
        goes_on = over ∙ sym (ap (λ b. not (b || some_stops rounds)) stop);
      })
first-Copies round rounds out copied_ (continues out' runs same h) later =
    let rest = later out' h in
    record {
      consumed =
          rest.consumed
          ∙ ap (λ t. t ++ output_before_stop rounds) same
          ∙ append_assoc out.consumed (chunk_of round.selected) (output_before_stop rounds)
          ∙ ap (λ t. out.consumed ++ t) (sym (on_stop (stops round) false _ _ runs));
      agrees = rest.agrees;
      goes_on = rest.goes_on ∙ sym (ap (λ b. not (b || some_stops rounds)) runs);
    }

pump-Copies :
    (rounds : List Turn) (out : Output)
    → IsCounted out
    → Copies rounds out (pump_ffmpeg_to_consumer rounds out)
unfolding pump_ffmpeg_to_consumer
pump-Copies [] out h = record {
  consumed = sym (append-nil out.consumed);
  agrees = h;
  goes_on = refl;
}
pump-Copies (round ∷ rounds) out h =
    first-Copies round rounds out (copy_round round out) (round-Rounded round out h)
      (λ out' h'. pump-Copies rounds out' h')

-- The consumer gets exactly what FFmpeg put out before the first round that is cancelled, finds
-- nothing to select or to read any more, or fails to write; `bytes_out` counts it, and there is no byte
-- of it without the time of the first one. The loop goes on exactly as long as there was no such round.
pub pump_ffmpeg_to_consumer-IsCounted :
    (rounds : List Turn)
    → (let copied = pump_ffmpeg_to_consumer rounds new_output in
        ((output_of copied).consumed ≡ output_before_stop rounds)
        × IsCounted (output_of copied)
        × (is_copying copied ≡ not (some_stops rounds)))
pump_ffmpeg_to_consumer-IsCounted rounds =
    let copies = pump-Copies rounds new_output (record { counted = refl; stamped = refl }) in
    (copies.consumed, copies.agrees, copies.goes_on)
