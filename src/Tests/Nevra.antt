-- ===== src/Tests/Nevra.antt =====
-- The output of rpm for a package, and a version lock.
use yoinkc.Base.{◌≡◌, refl, true, none, some, [], ◌∷◌, ok}
use yoinkc.Base.Slices.{count_char, strip}
use yoinkc.Nevra.{
  is_digits, parsed_package, parse_nevr, parse_rpm_qa, parse_rpm_va, parse_nevra_pattern,
}
use yoinkc.Nevra.RoundTrip
use yoinkc.Nevra.RoundTrip.{nevra_of}

bash_line :
    parse_nevr "(none):python3-libs-3.9.18-3.el9.x86_64"
    ≡ some (parsed_package "python3-libs" "0" "3.9.18" "3.el9" "x86_64")
unfolding parse_nevr
bash_line = refl

one_of_two :
    parse_rpm_qa "0:zsh-5-1.x86_64\njunk\n"
    ≡ (parsed_package "zsh" "0" "5" "1" "x86_64" ∷ [], some "warning")
unfolding parse_rpm_qa
one_of_two = refl

changed_file :
    parse_rpm_va "S.5....T.  c /etc/foo\n"
    ≡ record { path = "/etc/foo"; flags = "S.5....T."; package_name = none } ∷ []
unfolding parse_rpm_va
changed_file = refl

parse_nevr-nevra_of_example :
    parse_nevr (nevra_of "0" "python3-libs" "3.9.18" "3.el9" "x86_64")
    ≡ some (parsed_package "python3-libs" "0" "3.9.18" "3.el9" "x86_64")
unfolding is_digits count_char nevra_of strip
parse_nevr-nevra_of_example =
    RoundTrip.parse_nevr-nevra_of "0" "python3-libs" "3.9.18" "3.el9" "x86_64" refl refl refl refl
      refl

version_lock :
    parse_nevra_pattern "1:curl-7.76.1-26.el9.*"
    ≡ ok (record {
      raw_pattern = "1:curl-7.76.1-26.el9.*";
      name = "curl";
      epoch = 1;
      version = "7.76.1";
      release = "26.el9";
      arch = "*";
      include = true;
      fleet = none;
    })
unfolding parse_nevra_pattern
version_lock = refl
