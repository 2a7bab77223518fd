-- ===== src/Packages/Printed.antt =====
-- A name with the epoch in front of the version is parsed as it was (convert2rhel/pkghandler.py).
use convert2rhel.Prelude.{
  String, Bool, true, false, not, ◌&&◌, some, List, [], ◌∷◌, any, All, All-mem, contains-mem,
  contains, ◌==◌, string_eq, nat_eq, ok, ◌≡◌, refl, arith,
}
use convert2rhel.Prelude.Text.{
  same_char, has_char, ends_with, split_first-append, split_last-append,
}
use convert2rhel.Packages.{get_pkg_nevra}
use convert2rhel.Packages.Parse.{
  Manager, Components, pkg_arch, or_none, is_nevra, fields_match, parsed_length,
  validate_parsed_fields, split_release, parse_nevra, parse_pkg_with_yum, parse_pkg_string,
}
use convert2rhel.Packages.Between.{
  between, printed, get_pkg_nevra-printed, count-printed, has_char-between, ends_with-between,
  between_assoc,
}
use convert2rhel.Packages.Laws.{
  IsClass, IsClass-matches, has_char-all, digits_colon-append, is_nevra-append,
}

-- What makes a package's name one that can be read again.
pub record IsName (manager : Manager) (name epoch version release arch : String) : Type 0 where
  pub name_class : IsClass (λ c. not (manager.is_space c)) name
  pub epoch_class : IsClass manager.is_digit epoch
  pub version_class : IsClass (λ c. not (manager.is_space c) && not (same_char c "-")) version
  pub release_class : IsClass (λ c. not (manager.is_space c) && not (same_char c "-")) release
  pub known_arch : contains pkg_arch arch ≡ true

-- Neither a colon nor a dash is a digit.
pub record IsDigits (manager : Manager) : Type 0 where
  pub colon : manager.is_digit ":" ≡ false
  pub dash : manager.is_digit "-" ≡ false

unfoldable IsPlain : String → Type 0
IsPlain arch = (has_char "-" arch ≡ false) × ((has_char "." arch ≡ false) × ((arch == "") ≡ false))

known_arches : All IsPlain pkg_arch
unfolding IsPlain has_char nat_eq string_eq
known_arches = (
  (refl, (refl, refl)),
  (
    (refl, (refl, refl)),
    (
      (refl, (refl, refl)),
      (
        (refl, (refl, refl)),
        ((refl, (refl, refl)), ((refl, (refl, refl)), ((refl, (refl, refl)), tt))),
      ),
    ),
  ),
)

IsPlain-prop : (arch : String) → IsProp (IsPlain arch)
unfolding IsPlain
IsPlain-prop arch = hlevel

known-IsPlain : (arch : String) → contains pkg_arch arch ≡ true → IsPlain arch
known-IsPlain arch h =
    All-mem IsPlain IsPlain-prop pkg_arch arch known_arches (contains-mem pkg_arch arch h)

any-contains :
    (test : String → Bool) (xs : List String) (x : String)
    → contains xs x ≡ true
    → test x ≡ true
    → any test xs ≡ true
any-contains test [] x h t = cc
any-contains test (y ∷ ys) x h t = ground (arith, h, t, any-contains test ys x)

module _ (manager : Manager) (name epoch version release arch : String) (digits : IsDigits manager)
    (n : IsName manager name epoch version release arch) where
  dashless :
      (s : String)
      → IsClass (λ c. not (manager.is_space c) && not (same_char c "-")) s
      → has_char "-" s ≡ false
  unfolding nat_eq
  dashless s h =
      has_char-all (λ c. not (manager.is_space c) && not (same_char c "-")) "-" s (ground arith)
        h.every_char

  printed-is_nevra : is_nevra manager (printed name epoch version release arch) ≡ true
  unfolding is_nevra nat_eq
  printed-is_nevra =
      let tail = between release "." arch in
      let rest = between version "-" tail in
      let e = n.epoch_class in
      let found =
        digits_colon-append manager false epoch rest e.every_char (ground (arith, e.some_char)) in
      rw
        (
          between_assoc name (between epoch ":" version) tail "-" "-",
          between_assoc epoch version tail ":" "-",
        )
        (is_nevra-append manager name (String.◌∷◌ "-" (between epoch ":" rest))
          (ground (arith, found)))

  parsed_release : split_release manager (between release "." arch) ≡ ok (release, or_none arch)
  unfolding split_release IsPlain
  parsed_release =
      let tail = between release "." arch in
      let known =
        any-contains (λ a. ends_with a tail) pkg_arch arch n.known_arch
          (ends_with-between release arch ".") in
      let plain = known-IsPlain arch n.known_arch in
      ground (arith, known, split_last-append "." release arch plain.1.0)

  abbrev pub fields : Components
  fields = record {
    name = some name;
    epoch = some epoch;
    version = some version;
    release = some release;
    arch = some arch;
  }

  arch_given : (arch == "") ≡ false
  unfolding IsPlain
  arch_given = (known-IsPlain arch n.known_arch).1.1

  parsed_nevra : parse_nevra manager (printed name epoch version release arch) ≡ ok fields
  unfolding parse_nevra IsPlain nat_eq
  parsed_nevra =
      let plain = known-IsPlain arch n.known_arch in
      let tail = between release "." arch in
      let front = between name "-" (between epoch ":" version) in
      let no_dash = has_char-all manager.is_digit "-" epoch digits.dash n.epoch_class.every_char in
      let no_colon =
        has_char-all manager.is_digit ":" epoch digits.colon n.epoch_class.every_char in
      let no_dash_v = dashless version n.version_class in
      let s1 =
        split_last-append "-" front tail
          (has_char-between "-" "." release arch (dashless release n.release_class) refl plain.0) in
      let s2 =
        split_last-append "-" name (between epoch ":" version)
          (has_char-between "-" ":" epoch version no_dash refl no_dash_v) in
      let s3 = split_first-append ":" epoch version no_colon in
      ground (
        arith, s1, s2, s3, parsed_release, arch_given, n.name_class.some_char,
        n.epoch_class.some_char, n.version_class.some_char, n.release_class.some_char,
      )

  valid_fields :
      validate_parsed_fields manager (printed name epoch version release arch) fields ≡ ok tt
  unfolding validate_parsed_fields fields_match parsed_length
  valid_fields = ground (
    arith,
    count-printed name epoch version release arch,
    n.known_arch,
    IsClass-matches _ name n.name_class,
    IsClass-matches _ epoch n.epoch_class,
    IsClass-matches _ version n.version_class,
    IsClass-matches _ release n.release_class,
  )

-- Under yum, a name with the epoch in front of the version and a known arch, as dnf prints it, is
-- parsed to the fields of the package, where the name, the epoch, the version and the release are texts without
-- white space, the epoch of digits and version and release without a dash.
pub parse_pkg_string-printed :
    (manager : Manager) (name epoch version release arch : String)
    → manager.is_yum ≡ true
    → IsDigits manager
    → IsName manager name epoch version release arch
    → parse_pkg_string manager (
        get_pkg_nevra false
          (record {
            name = name;
            epoch = epoch;
            version = version;
            release = release;
            arch = some arch;
          })
          true)
      ≡ ok (record {
        name = some name;
        epoch = some epoch;
        version = some version;
        release = some release;
        arch = some arch;
      })
unfolding parse_pkg_string parse_pkg_with_yum
parse_pkg_string-printed manager name epoch version release arch yum digits n =
    rw (get_pkg_nevra-printed name epoch version release arch) (
      ground (
        arith,
        yum,
        printed-is_nevra manager name epoch version release arch digits n,
        parsed_nevra manager name epoch version release arch digits n,
        valid_fields manager name epoch version release arch digits n,
      ))
