-- ===== src/Tests/OptionTests.antt =====
-- The properties of struct pressio_option at concrete inputs.
use libpressio.Base.{arith, codes, refl, some, true, ◌≡◌, ◌⊎◌}
use libpressio.Base.Int.{pos, negsuc}
use libpressio.PressioOption.Numeric.{NumType, is_narrowing_conversion}
use libpressio.PressioOption.Cell.{OptionType, PressioOption, monostate, num, text, num_option_type}
use libpressio.PressioOption.Names.{implicit, special}
use libpressio.PressioOption.As.{as_type, cast_set}
use libpressio.PressioOption.Lossless.{Keeps, implicit_conversion}
use libpressio.PressioOption.ResultType.{CastOutcome, cast_set-CastOutcome}
use libpressio.PressioOption.RoundTrip.{as_type-to_string}
use libpressio.Tests.Hosts.{host}

abbrev five : PressioOption host
five = num NumType.int32 (some (pos 5))

implicit_conversion_example :
    ((is_narrowing_conversion NumType.int32 NumType.int64 ≡ true)
      × (as_type host five (num_option_type NumType.int64) implicit ≡ monostate))
    ⊎ Keeps host NumType.int32
        (pos 5)
        NumType.int64
        (as_type host five (num_option_type NumType.int64) implicit)
implicit_conversion_example =
    implicit_conversion host NumType.int32 NumType.int64 (pos 5) refl refl (λ e. cc) (omega arith)

cast_set-CastOutcome_example :
    CastOutcome host five (cast_set host five (text (some (codes "12"))) special)
cast_set-CastOutcome_example = cast_set-CastOutcome host five (text (some (codes "12"))) special

as_type-to_string_example :
    as_type host
      (as_type host (num NumType.int32 (some (negsuc 41))) OptionType.charptr special)
      (num_option_type NumType.int32)
      special
    ≡ num NumType.int32 (some (negsuc 41))
as_type-to_string_example =
    as_type-to_string host NumType.int32 (negsuc 41) refl (λ e. cc) (λ e. cc) (omega arith)
