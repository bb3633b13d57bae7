-- ===== src/Ui/Carousel.antt =====
-- components/ui/carousel.tsx: the buttons and keys of the carousel. The engine that scrolls is a library:
-- its api comes as a parameter.
use v.Prelude.{String, Bool, true, false, not, Option, none, some, if◌then◌else◌, ◌===◌}

-- What the code asks of the engine, on the engine's state.
pub record CarouselApi (E : Type 0) : Type 0 where
  pub scroll_prev : E → E
  pub scroll_next : E → E
  pub can_scroll_prev : E → Bool
  pub can_scroll_next : E → Bool

pub data Orientation : Type 0 where
  horizontal vertical : Orientation

-- `engine` is none until the library has made its api.
pub record CarouselState (E : Type 0) : Type 0 where
  pub engine : Option E
  pub can_scroll_prev : Bool
  pub can_scroll_next : Bool

pub data Axis : Type 0 where
  x y : Axis

unfoldable pub axis_of : Orientation → Axis
axis_of horizontal = x
axis_of vertical = y

unfoldable pub initial_carousel : {E : Type 0} → CarouselState E
initial_carousel = record { engine = none; can_scroll_prev = false; can_scroll_next = false }

module _ {E : Type 0} (api : CarouselApi E) where
  abbrev read_flags : Option E → CarouselState E → CarouselState E
  read_flags none s = s
  read_flags (some e) s = record s {
    can_scroll_prev = api.can_scroll_prev e;
    can_scroll_next = api.can_scroll_next e;
  }

  -- `onSelect`, which the engine calls after each selection.
  unfoldable pub on_select : CarouselState E → CarouselState E
  on_select s = read_flags s.engine s

  abbrev apply_engine : (E → E) → Option E → Option E
  apply_engine f none = none
  apply_engine f (some e) = some (f e)

  -- `scrollPrev`, and the engine's `select` event.
  unfoldable pub scroll_prev : CarouselState E → CarouselState E
  unfolding on_select
  scroll_prev s = on_select (record s { engine = apply_engine api.scroll_prev s.engine })

  -- `scrollNext`, and the engine's `select` event.
  unfoldable pub scroll_next : CarouselState E → CarouselState E
  unfolding on_select
  scroll_next s = on_select (record s { engine = apply_engine api.scroll_next s.engine })

  -- The effect that runs when the api is there.
  unfoldable pub attach : E → CarouselState E → CarouselState E
  unfolding on_select
  attach e s = on_select (record s { engine = some e })

  -- `handleKeyDown`; whether the key's default is prevented.
  unfoldable pub handle_arrow : String → CarouselState E → CarouselState E × Bool
  unfolding scroll_prev scroll_next
  handle_arrow key s =
      let back = scroll_prev s in
      let forth = scroll_next s in
      if key === "ArrowLeft"
      then (back, true)
      else if key === "ArrowRight"
      then (forth, true)
      else (s, false)

-- `CarouselPrevious` and `CarouselNext`: whether each button is disabled.
unfoldable pub disabled_buttons : {E : Type 0} → CarouselState E → Bool × Bool
disabled_buttons s = (not s.can_scroll_prev, not s.can_scroll_next)
